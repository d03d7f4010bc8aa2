-- ===== src/Engine/Priority.antt =====
-- What `std::ranges::sort` by descending priority promises, and that on distinct priorities the
-- promise leaves one result.
use rune_old.Base.{
  ℕ, ◌+◌, ◌≤◌, ◌<◌, Bool, true, false, ◌&&◌, ◌≡◌, refl, ap₂, inl, inr, List, [], ◌∷◌, ◌==◌,
  if◌then◌else◌, arith, All, Bool-cases,
}
use rune_old.Engine.{Entry}

abbrev pub same : Entry → Entry → Bool
same (h, p) (j, q) = h == j && p == q

-- How often an entry stands in a list.
abbrev pub count : Entry → List Entry → ℕ
count z [] = 0
count z (x ∷ xs) = (if same z x then 1 else 0) + count z xs

-- The priorities do not rise.
abbrev pub Descends : List Entry → Type 0
Descends [] = Unit
Descends (x ∷ xs) = All (λ (e : Entry). e.1 ≤ x.1) xs × Descends xs

-- The priorities fall.
abbrev pub Falls : List Entry → Type 0
Falls [] = Unit
Falls (x ∷ xs) = All (λ (e : Entry). e.1 < x.1) xs × Falls xs

-- The result has the same entries, as often, by descending priority. Nothing is said of the order
-- of entries of one priority.
abbrev pub Sorts : (List Entry → List Entry) → Type 0
Sorts sort = (xs : List Entry) → ((z : Entry) → count z (sort xs) ≡ count z xs) × Descends (sort xs)

same_refl : (z : Entry) → same z z ≡ true
same_refl z = ground arith

same_eq : (x y : Entry) → same x y ≡ true → x ≡ y
same_eq (h, p) (j, q) e = ground arith

same_sym : (x y : Entry) → same x y ≡ false → same y x ≡ false
same_sym (h, p) (j, q) e = ground arith

count_pos :
    (x y : Entry) (xs : List Entry) → 0 < count x (y ∷ xs) → same x y ≡ false → 0 < count x xs
count_pos x y xs c e = ground arith

All_at : (P : Entry → Type 0) (z : Entry) (xs : List Entry) → All P xs → 0 < count z xs → P z
All_at P z [] h c = elim c [ ]
All_at P z (x ∷ xs) a c = elim (Bool-cases (same z x)) [
  | inl e ↦ rw (same_eq z x e) (a.0)
  | inr e ↦ All_at P z xs a.1 (count_pos z x xs c e)
]

-- The entry with the highest priority comes first.
heads_eq :
    (x y : Entry) (xs ys : List Entry)
    → Falls (x ∷ xs)
    → Descends (y ∷ ys)
    → ((z : Entry) → count z (y ∷ ys) ≡ count z (x ∷ xs))
    → y ≡ x
heads_eq x y xs ys f d c = elim (Bool-cases (same y x)) [
  | inl e ↦ same_eq y x e
  | inr e ↦
      let y_in : 0 < count y (x ∷ xs) = ground (arith, c y, same_refl y) in
      let x_in : 0 < count x (y ∷ ys) = ground (arith, c x, same_refl x) in
      let below = All_at (λ e. e.1 < x.1) y xs f.0 (count_pos y x xs y_in e) in
      let above = All_at (λ e. e.1 ≤ y.1) x ys d.0 (count_pos x y ys x_in (same_sym y x e)) in
      absurd (omega arith)
]

counts_tail :
    (x : Entry) (xs ys : List Entry) (z : Entry)
    → count z (x ∷ ys) ≡ count z (x ∷ xs)
    → count z ys ≡ count z xs
counts_tail x xs ys z h = ground arith

Falls-unique :
    (xs ys : List Entry)
    → Falls xs
    → Descends ys
    → ((z : Entry) → count z ys ≡ count z xs)
    → ys ≡ xs
Falls-unique [] [] f d c = refl
Falls-unique [] (y ∷ ys) f d c = ground (arith, c y, same_refl y)
Falls-unique (x ∷ xs) [] f d c = ground (arith, c x, same_refl x)
Falls-unique (x ∷ xs) (y ∷ ys) f d c =
    let e = heads_eq x y xs ys f d c in
    ap₂ ◌∷◌ e (Falls-unique xs ys f.1 d.1 (λ z. counts_tail x xs ys z (rw e at (c z))))

-- Any sort leaves a list of falling priorities as it is.
pub sort-Falls :
    (sort : List Entry → List Entry) (xs : List Entry) → Sorts sort → Falls xs → sort xs ≡ xs
sort-Falls sort xs sorts f = Falls-unique xs (sort xs) f (sorts xs).1 (sorts xs).0
