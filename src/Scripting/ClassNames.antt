-- ===== src/Scripting/ClassNames.antt =====
-- How `invoke_method` splits the name of a class.
use rune_old.Base.{
  ℕ, suc, ◌-◌, ◌≡◌, refl, ap, true, false, none, some, [], ◌∷◌, ◌++◌, ◌==◌, arith, length,
  length-append, take, drop, Bytes, All,
}
use rune_old.Ini.{substr}
use rune_old.Scripting.{find_last_of, split_class}

-- The byte does not stand in the text.
abbrev pub Lacks : ℕ → Bytes → Type 0
Lacks c xs = All (λ x. (x == c) ≡ false) xs

find_last_of-Lacks : (c : ℕ) (xs : Bytes) → Lacks c xs → find_last_of c xs ≡ none
unfolding find_last_of
find_last_of-Lacks c [] h = refl
find_last_of-Lacks c (x ∷ xs) (h, hs) = rw (find_last_of-Lacks c xs hs, h) refl

find_last_of-append :
    (c : ℕ) (xs ys : Bytes) → Lacks c ys → find_last_of c (xs ++ c ∷ ys) ≡ some (length xs)
unfolding find_last_of
find_last_of-append c [] ys h =
    let same : (c == c) ≡ true = ground arith in rw (find_last_of-Lacks c ys h, same) refl
find_last_of-append c (x ∷ xs) ys h = rw (find_last_of-append c xs ys h) refl

take-length : (xs ys : Bytes) → take (length xs) (xs ++ ys) ≡ xs
take-length [] ys = refl
take-length (x ∷ xs) ys = ap (◌∷◌ x) (take-length xs ys)

take-whole : (xs : Bytes) → take (length xs) xs ≡ xs
take-whole [] = refl
take-whole (x ∷ xs) = ap (◌∷◌ x) (take-whole xs)

drop-length : (c : ℕ) (xs ys : Bytes) → drop (suc (length xs)) (xs ++ c ∷ ys) ≡ ys
drop-length c [] ys = refl
drop-length c (x ∷ xs) ys = drop-length c xs ys

-- A name with dots is split at its last dot: what stands in front is the namespace and what stands
-- behind the class. A name with no dot is taken as the class and as the namespace too.
pub split_class-cases :
    (namespace_name name : Bytes)
    → Lacks b'.' name
    → (split_class (namespace_name ++ b'.' ∷ name) ≡ (namespace_name, name))
      × (split_class name ≡ (name, name))
unfolding split_class substr
split_class-cases namespace_name name h =
    let rest : length (namespace_name ++ b'.' ∷ name) - suc (length namespace_name) ≡ length name =
      omega (arith, length-append namespace_name (b'.' ∷ name)) in
    let whole : length name - 0 ≡ length name = omega arith in
    (
      rw
          (
            find_last_of-append b'.' namespace_name name h,
            rest,
            take-length namespace_name (b'.' ∷ name),
            drop-length b'.' namespace_name name,
            take-whole name,
          )
          refl,
      rw (find_last_of-Lacks b'.' name h, whole, take-whole name) refl,
    )
