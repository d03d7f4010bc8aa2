-- ===== src/Engine/Table.antt =====
-- `Engine::set_system_priority`, called again and again: the vector against a map from systems to
-- their priorities.
use rune_old.Base.{
  ℕ, ◌≡◌, refl, ap, ◌∙◌, true, false, Option, none, some, List, [], ◌∷◌, ◌++◌, ◌==◌, ==_iff,
  if◌then◌else◌, arith, Bool-cases, Option-cases, inl, inr,
}
use rune_old.Engine.Priority.{same, count, Descends, Sorts}
use rune_old.Engine.Startup.{Distinct, hash_ne}
use rune_old.Engine.{SystemKind, Entry, Engine, update_priority, has_priority, set_system_priority}

pub SystemKind-discrete : Discrete SystemKind
SystemKind-discrete = hlevel

-- The map behind a call.
abbrev pub set_in_map : SystemKind → ℕ → (SystemKind → Option ℕ) → SystemKind → Option ℕ
set_in_map k p f j = elim (SystemKind-discrete k j) [ yes _ ↦ some p | no _ ↦ f j ]

abbrev pub last_set : List (SystemKind × ℕ) → (SystemKind → Option ℕ) → SystemKind → Option ℕ
last_set [] f = f
last_set ((k, p) ∷ cs) f = last_set cs (set_in_map k p f)

-- How often a system with the priority `o` stands with the priority `q`.
abbrev pub holds : Option ℕ → ℕ → ℕ
holds none q = 0
holds (some p) q = if q == p then 1 else 0

count-concat : (z x : Entry) (xs : List Entry) → count z (xs ++ x ∷ []) ≡ count z (x ∷ xs)
count-concat z x [] = refl
count-concat z x (y ∷ ys) = ground (arith, count-concat z x ys)

-- A hash that no entry has.
absent_tail :
    (h : ℕ) (x : Entry) (xs : List Entry)
    → ((q : ℕ) → count (h, q) (x ∷ xs) ≡ 0)
    → (q : ℕ) → count (h, q) xs ≡ 0
absent_tail h x xs none_here q = let e = none_here q in ground arith

absent_head :
    (h i r : ℕ) (xs : List Entry) → ((q : ℕ) → count (h, q) ((i, r) ∷ xs) ≡ 0) → (i == h) ≡ false
absent_head h i r xs none_here = let e = none_here r in ground arith

has_priority-absent :
    (h : ℕ) (xs : List Entry) → ((q : ℕ) → count (h, q) xs ≡ 0) → has_priority h xs ≡ false
unfolding has_priority
has_priority-absent h [] none_here = refl
has_priority-absent h ((i, r) ∷ xs) none_here =
    rw (absent_head h i r xs none_here)
      (has_priority-absent h xs (absent_tail h (i, r) xs none_here))

update_priority-absent :
    (h p : ℕ) (xs : List Entry) → ((q : ℕ) → count (h, q) xs ≡ 0) → update_priority h p xs ≡ xs
unfolding update_priority
update_priority-absent h p [] none_here = refl
update_priority-absent h p ((i, r) ∷ xs) none_here =
    rw (absent_head h i r xs none_here)
      (ap (◌∷◌ (i, r)) (update_priority-absent h p xs (absent_tail h (i, r) xs none_here)))

-- Entries of other systems stay.
count-update_ne :
    (h p h' q : ℕ) (xs : List Entry)
    → (h == h') ≡ false
    → count (h', q) (update_priority h p xs) ≡ count (h', q) xs
unfolding update_priority
count-update_ne h p h' q [] other = refl
count-update_ne h p h' q ((i, r) ∷ xs) other = ground (arith, count-update_ne h p h' q xs other)

-- A hash that one entry has.
single_other :
    (h i r q0 : ℕ) (xs : List Entry)
    → ((q : ℕ) → count (h, q) ((i, r) ∷ xs) ≡ holds (some q0) q)
    → (i == h) ≡ false
    → (q : ℕ) → count (h, q) xs ≡ holds (some q0) q
single_other h i r q0 xs one other q = let e = one q in ground arith

single_here :
    (h i r q0 : ℕ) (xs : List Entry)
    → ((q : ℕ) → count (h, q) ((i, r) ∷ xs) ≡ holds (some q0) q)
    → (i == h) ≡ true
    → (q : ℕ) → count (h, q) xs ≡ 0
single_here h i r q0 xs one here q = let e = one q in let e' = one r in ground arith

has_priority-single :
    (h q0 : ℕ) (xs : List Entry)
    → ((q : ℕ) → count (h, q) xs ≡ holds (some q0) q)
    → has_priority h xs ≡ true
unfolding has_priority
has_priority-single h q0 [] one = let e = one q0 in ground arith
has_priority-single h q0 ((i, r) ∷ xs) one = elim (Bool-cases (i == h)) [
  | inl here ↦ rw here refl
  | inr other ↦ rw other (has_priority-single h q0 xs (single_other h i r q0 xs one other))
]

count-update_self :
    (h p q0 : ℕ) (xs : List Entry)
    → ((q : ℕ) → count (h, q) xs ≡ holds (some q0) q)
    → (q : ℕ) → count (h, q) (update_priority h p xs) ≡ holds (some p) q
unfolding update_priority
count-update_self h p q0 [] one q = let e = one q0 in ground arith
count-update_self h p q0 ((i, r) ∷ xs) one q = elim (Bool-cases (i == h)) [
  | inl here ↦
      let rest = single_here h i r q0 xs one here in
      let e = rest q in rw (here, update_priority-absent h p xs rest) (ground arith)
  | inr other ↦
      let e = count-update_self h p q0 xs (single_other h i r q0 xs one other) q in
      rw other (ground arith)
]

module _ (hash_code : SystemKind → ℕ) where
  -- The vector is the map: by descending priority, each system that the map has stands once, with its
  -- priority, and nothing else stands.
  pub record IsTable (f : SystemKind → Option ℕ) (v : List Entry) : Type 0 where
    pub sorted : Descends v
    pub listed : (k : SystemKind) (q : ℕ) → count (hash_code k, q) v ≡ holds (f k) q
    pub nothing_else :
        (h q : ℕ) → ((k : SystemKind) → (hash_code k == h) ≡ false) → count (h, q) v ≡ 0

  module _ {D : Type 0} (sort : List Entry → List Entry) where
    -- The calls in turn.
    abbrev pub set_priorities : List (SystemKind × ℕ) → Engine D → Engine D
    set_priorities [] e = e
    set_priorities ((k, p) ∷ cs) e = set_priorities cs (set_system_priority hash_code sort k p e)

    module _ (sorts : Sorts sort) (distinct : Distinct hash_code) where
      -- What is handed to the sort.
      counts_set :
          (k : SystemKind) (p : ℕ) (f : SystemKind → Option ℕ) (e : Engine D) (z : Entry)
          → IsTable f e.system_priority_vec
          → count z (set_system_priority hash_code sort k p e).system_priority_vec
            ≡ (if hash_code k == z.0 then holds (some p) z.1 else count z e.system_priority_vec)
      unfolding set_system_priority
      counts_set k p f e z t = elim (Option-cases (f k)) [
        | inl unset ↦
            let none_here : (q : ℕ) → count (hash_code k, q) e.system_priority_vec ≡ 0 =
              λ q. t.listed k q ∙ ap (λ o. holds o q) unset in
            rw
              (
                set_system_priority,
                has_priority-absent (hash_code k) e.system_priority_vec none_here,
                update_priority-absent (hash_code k) p e.system_priority_vec none_here,
                (sorts (e.system_priority_vec ++ (hash_code k, p) ∷ [])).0 z,
                count-concat z (hash_code k, p) e.system_priority_vec,
              )
              (appended z (none_here z.1))
        | inr (q0, old) ↦
            let one : (q : ℕ) → count (hash_code k, q) e.system_priority_vec ≡ holds (some q0) q =
              λ q. t.listed k q ∙ ap (λ o. holds o q) old in
            let updated = update_priority (hash_code k) p e.system_priority_vec in
            rw
              (
                set_system_priority,
                has_priority-single (hash_code k) q0 e.system_priority_vec one,
                (sorts updated).0 z,
              )
              (replaced z q0 one)
      ]
        where
          appended :
              (z : Entry)
              → count (hash_code k, z.1) e.system_priority_vec ≡ 0
              → count z ((hash_code k, p) ∷ e.system_priority_vec)
                ≡ (if hash_code k == z.0 then holds (some p) z.1 else count z e.system_priority_vec)
          appended (h, q) none_here = elim (Bool-cases (hash_code k == h)) [
            | inl here ↦
                let at_h : count (h, q) e.system_priority_vec ≡ 0 =
                  rw (← (==_iff (hash_code k) h).0 here) none_here in
                rw here (ground arith)
            | inr other ↦ rw other (ground arith)
          ]

          replaced :
              (z : Entry) (q0 : ℕ)
              → ((q : ℕ) → count (hash_code k, q) e.system_priority_vec ≡ holds (some q0) q)
              → count z (update_priority (hash_code k) p e.system_priority_vec)
                ≡ (if hash_code k == z.0 then holds (some p) z.1 else count z e.system_priority_vec)
          replaced (h, q) q0 one = elim (Bool-cases (hash_code k == h)) [
            | inl here ↦
                rw (here, ← (==_iff (hash_code k) h).0 here)
                  (count-update_self (hash_code k) p q0 e.system_priority_vec one q)
            | inr other ↦ rw other (count-update_ne (hash_code k) p h q e.system_priority_vec other)
          ]

      set_system_priority-IsTable :
          (k : SystemKind) (p : ℕ) (f : SystemKind → Option ℕ) (e : Engine D)
          → IsTable f e.system_priority_vec
          → IsTable
              (set_in_map k p f)
              (set_system_priority hash_code sort k p e).system_priority_vec
      unfolding set_system_priority
      set_system_priority-IsTable k p f e t = record {
        sorted = (sorts _).1;
        listed =
            λ j q. counts_set k p f e (hash_code j, q) t ∙ chosen j q (SystemKind-discrete k j);
        nothing_else =
            λ h q other. counts_set k p f e (h, q) t ∙ rw (other k) (t.nothing_else h q other);
      }
        where
          chosen :
              (j : SystemKind) (q : ℕ) (d : Dec (k ≡ j))
              → (if hash_code k == hash_code j
                  then holds (some p) q
                  else count (hash_code j, q) e.system_priority_vec)
                ≡ holds (elim d [ yes _ ↦ some p | no _ ↦ f j ]) q
          chosen j q (yes same) =
              rw ((==_iff (hash_code k) (hash_code j)).1 (ap hash_code same)) refl
          chosen j q (no other) = rw (hash_ne hash_code distinct k j other) (t.listed j q)

      set_priorities-kept :
          (cs : List (SystemKind × ℕ)) (f : SystemKind → Option ℕ) (e : Engine D)
          → IsTable f e.system_priority_vec
          → IsTable (last_set cs f) (set_priorities cs e).system_priority_vec
      set_priorities-kept [] f e t = t
      set_priorities-kept ((k, p) ∷ cs) f e t =
          set_priorities-kept cs (set_in_map k p f) (set_system_priority hash_code sort k p e)
            (set_system_priority-IsTable k p f e t)

      -- The vector of priorities implements a map from systems to priorities: from an engine with no
      -- entries, behind any calls of `set_system_priority`, in any order and with repetitions, whatever
      -- sort is used and whatever distinct hashes the classes have, it stands by descending priority,
      -- each system that a call named stands in it once, with the priority that was set last, and
      -- nothing else stands in it.
      pub set_priorities-IsTable :
          (cs : List (SystemKind × ℕ)) (e : Engine D)
          → e.system_priority_vec ≡ []
          → IsTable (last_set cs (λ _. none)) (set_priorities cs e).system_priority_vec
      set_priorities-IsTable cs e empty =
          set_priorities-kept cs (λ _. none) e
            (rw empty
              (record { sorted = tt; listed = λ k q. refl; nothing_else = λ h q other. refl }))
