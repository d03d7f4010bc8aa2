-- ===== src/Audio/Cyclic/Reading.antt =====
-- Reading an audio byte by byte, over and over.
use rune_old.Base.{
  ℕ, zero, suc, ◌+◌, ◌≤◌, ◌≡◌, refl, sym, ap, ◌∙◌, arith, List, [], ◌∷◌, ◌++◌, length, take, drop,
  Bytes,
}

-- The next `n` bytes for one who reads byte by byte, has `rest` left, and starts again with `xs`
-- at the end.
abbrev pub cyclic : Bytes → ℕ → Bytes → Bytes
cyclic xs zero rest = []
cyclic [] (suc n) [] = []
cyclic (x ∷ xs) (suc n) [] = x ∷ cyclic (x ∷ xs) n xs
cyclic xs (suc n) (y ∷ rest) = y ∷ cyclic xs n rest

pub cyclic-again : (xs : Bytes) (n : ℕ) → cyclic xs n [] ≡ cyclic xs n xs
cyclic-again xs zero = refl
cyclic-again [] (suc n) = refl
cyclic-again (x ∷ xs) (suc n) = refl

pub cyclic-cons :
    (xs : Bytes) (n y : ℕ) (rest : Bytes) → cyclic xs (suc n) (y ∷ rest) ≡ y ∷ cyclic xs n rest
cyclic-cons [] n y rest = refl
cyclic-cons (x ∷ xs) n y rest = refl

pub cyclic-add :
    (xs : Bytes) (m n : ℕ) (rest : Bytes)
    → m ≤ length rest
    → cyclic xs (m + n) rest ≡ take m rest ++ cyclic xs n (drop m rest)
cyclic-add xs zero n rest h = ap (λ k. cyclic xs k rest) (omega arith)
cyclic-add xs (suc m) n [] h = absurd (omega arith)
cyclic-add xs (suc m) n (y ∷ rest) h =
    let next : suc m + n ≡ suc (m + n) = omega arith in
    ap (λ k. cyclic xs k (y ∷ rest)) next
    ∙ cyclic-cons xs (m + n) y rest
    ∙ ap (◌∷◌ y) (cyclic-add xs m n rest (omega arith))

pub drop-nil : {A : Type 0} (n : ℕ) → drop {A = A} n [] ≡ []
drop-nil zero = refl
drop-nil (suc n) = refl

pub drop-drop : {A : Type 0} (m n : ℕ) (xs : List A) → drop n (drop m xs) ≡ drop (m + n) xs
drop-drop zero n xs = ap (λ k. drop k xs) (omega arith)
drop-drop (suc m) n [] = drop-nil n ∙ sym (drop-nil (suc m + n))
drop-drop (suc m) n (x ∷ xs) =
    let next : suc (m + n) ≡ suc m + n = omega arith in
    drop-drop m n xs ∙ ap (λ k. drop k (x ∷ xs)) next

pub take-all : {A : Type 0} (n : ℕ) (xs : List A) → length xs ≤ n → take n xs ≡ xs
take-all zero [] h = refl
take-all zero (x ∷ xs) h = absurd (omega arith)
take-all (suc n) [] h = refl
take-all (suc n) (x ∷ xs) h = ap (◌∷◌ x) (take-all n xs (omega arith))

pub drop-all : {A : Type 0} (n : ℕ) (xs : List A) → length xs ≤ n → drop n xs ≡ []
drop-all zero [] h = refl
drop-all zero (x ∷ xs) h = absurd (omega arith)
drop-all (suc n) [] h = refl
drop-all (suc n) (x ∷ xs) h = drop-all n xs (omega arith)
