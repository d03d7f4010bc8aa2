-- ===== src/Base/Members.antt =====
-- Membership in lists, and what holds of all members, by recursion.
use mathlib.Core.Path.{◌≡◌, refl, ap}
use mathlib.Core.Logic.{◌⊎◌, inl, inr}
use mathlib.Core.List.{List, [], ◌∷◌, ◌++◌, map}

module _ {ℓ} {A : Type ℓ} where
  pub data Elem (x : A) : List A → Type ℓ where
    head : {y : A} {ys : List A} → x ≡ y → Elem x (y ∷ ys)
    tail : {y : A} {ys : List A} → Elem x ys → Elem x (y ∷ ys)

abbrev pub All {ℓ κ} : {A : Type ℓ} → (A → Type κ) → List A → Type κ
All P [] = Unit
All P (x ∷ xs) = P x × All P xs

pub All-intro {ℓ κ} :
    {A : Type ℓ} (P : A → Type κ) (xs : List A) → ((x : A) → Elem x xs → P x) → All P xs
All-intro P [] h = tt
All-intro P (x ∷ xs) h = (h x (head refl), All-intro P xs (λ y e. h y (tail e)))

pub Elem-map {ℓ κ} :
    {A : Type ℓ} {B : Type κ} (f : A → B) {x : A} {xs : List A} → Elem x xs → Elem (f x) (map f xs)
Elem-map f (head e) = head (ap f e)
Elem-map f (tail h) = tail (Elem-map f h)

pub Elem-append_left {ℓ} :
    {A : Type ℓ} {x : A} {xs : List A} (ys : List A) → Elem x xs → Elem x (xs ++ ys)
Elem-append_left ys (head e) = head e
Elem-append_left ys (tail h) = tail (Elem-append_left ys h)

pub Elem-append_right {ℓ} :
    {A : Type ℓ} {x : A} (xs : List A) {ys : List A} → Elem x ys → Elem x (xs ++ ys)
Elem-append_right [] h = h
Elem-append_right (y ∷ xs) h = tail (Elem-append_right xs h)

pub Elem-split {ℓ} :
    {A : Type ℓ} {x : A} (xs : List A) {ys : List A} → Elem x (xs ++ ys) → Elem x xs ⊎ Elem x ys
Elem-split [] h = inr h
Elem-split (y ∷ xs) (head e) = inl (head e)
Elem-split (y ∷ xs) (tail h) = elim (Elem-split xs h) [ inl a ↦ inl (tail a) | inr b ↦ inr b ]
