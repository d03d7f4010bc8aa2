-- ===== src/Engine/Samples.antt =====
-- An insertion sort, hashes that count the systems, and an engine with no entries, for tests.
use rune_old.Base.{
  ℕ, zero, suc, ◌≤◌, ◌≡◌, refl, sym, ap, ◌∙◌, false, List, [], ◌∷◌, arith, leb, All, Bool-cases,
  inl, inr, if◌then◌else◌, leb→le,
}
use rune_old.Engine.{
  SystemKind, logging, events, platform, renderer, scripting, resources, scene, Entry, Engine,
}
use rune_old.Engine.Priority.{count, Descends, Sorts}
use rune_old.Engine.Startup.{Distinct}

abbrev pub insert : Entry → List Entry → List Entry
insert x [] = x ∷ []
insert x (y ∷ ys) = let rest = insert x ys in if leb y.1 x.1 then x ∷ y ∷ ys else y ∷ rest

abbrev pub sort : List Entry → List Entry
sort [] = []
sort (x ∷ xs) = insert x (sort xs)

count-insert : (z x : Entry) (ys : List Entry) → count z (insert x ys) ≡ count z (x ∷ ys)
count-insert z x [] = refl
count-insert z x (y ∷ ys) = ground (arith, count-insert z x ys)

count-sort : (z : Entry) (xs : List Entry) → count z (sort xs) ≡ count z xs
count-sort z [] = refl
count-sort z (x ∷ xs) = omega (arith, count-insert z x (sort xs), count-sort z xs)

All-le :
    (p q : ℕ) (ys : List Entry)
    → p ≤ q
    → All (λ (e : Entry). e.1 ≤ p) ys
    → All (λ (e : Entry). e.1 ≤ q) ys
All-le p q [] h a = tt
All-le p q (y ∷ ys) h a = (omega (arith, a.0), All-le p q ys h a.1)

All-insert :
    (p : ℕ) (x : Entry) (ys : List Entry)
    → x.1 ≤ p
    → All (λ (e : Entry). e.1 ≤ p) ys
    → All (λ (e : Entry). e.1 ≤ p) (insert x ys)
All-insert p x [] h a = (h, tt)
All-insert p x (y ∷ ys) h a = elim (Bool-cases (leb y.1 x.1)) [
  | inl e ↦ rw e (h, a)
  | inr e ↦ rw e (a.0, All-insert p x ys h a.1)
]

Descends-insert : (x : Entry) (ys : List Entry) → Descends ys → Descends (insert x ys)
Descends-insert x [] d = (tt, tt)
Descends-insert x (y ∷ ys) d = elim (Bool-cases (leb y.1 x.1)) [
  | inl e ↦ let h = leb→le y.1 x.1 e in rw e ((h, All-le y.1 x.1 ys h d.0), d)
  | inr e ↦ rw e (All-insert y.1 x ys (ground arith) d.0, Descends-insert x ys d.1)
]

Descends-sort : (xs : List Entry) → Descends (sort xs)
Descends-sort [] = tt
Descends-sort (x ∷ xs) = Descends-insert x (sort xs) (Descends-sort xs)

pub sort-Sorts : Sorts sort
sort-Sorts xs = (λ z. count-sort z xs, Descends-sort xs)

abbrev pub hash_code : SystemKind → ℕ
hash_code logging = 0
hash_code events = 1
hash_code platform = 2
hash_code renderer = 3
hash_code scripting = 4
hash_code resources = 5
hash_code scene = 6

abbrev pub of_hash : ℕ → SystemKind
of_hash zero = logging
of_hash (suc zero) = events
of_hash (suc (suc zero)) = platform
of_hash (suc (suc (suc zero))) = renderer
of_hash (suc (suc (suc (suc zero)))) = scripting
of_hash (suc (suc (suc (suc (suc zero))))) = resources
of_hash _ = scene

of_hash-hash_code : (k : SystemKind) → of_hash (hash_code k) ≡ k
of_hash-hash_code logging = refl
of_hash-hash_code events = refl
of_hash-hash_code platform = refl
of_hash-hash_code renderer = refl
of_hash-hash_code scripting = refl
of_hash-hash_code resources = refl
of_hash-hash_code scene = refl

pub hash_code-Distinct : Distinct hash_code
hash_code-Distinct j k h = sym (of_hash-hash_code j) ∙ ap of_hash h ∙ of_hash-hash_code k

abbrev pub engine : Engine ℕ
engine = record {
  config = record { log_dir_path = []; config_filename = []; initial_scene = [] };
  is_running = false;
  delta_time = 0;
  primary_window = 0;
  system_map = [];
  system_priority_vec = [];
}
