-- ===== src/Paths/Split.antt =====
-- `split_last` splits a text at the last byte that is searched.
use rune_old.Base.{
  ℕ, false, ◌≡◌, refl, ap, Option, none, some, [], ◌∷◌, ◌++◌, ◌==◌, ==_iff, if◌then◌else◌, arith,
  Bytes, Bool-cases, inl, inr,
}
use rune_old.Paths.{split_last}

-- The byte `b` does not stand in the text.
abbrev pub Lacks : ℕ → Bytes → Type 0
Lacks b [] = Unit
Lacks b (c ∷ cs) = ((c == b) ≡ false) × Lacks b cs

-- What a search for the last `b` returns.
abbrev pub Splits : ℕ → Bytes → Option (Bytes × Bytes) → Type 0
Splits b s none = Lacks b s
Splits b s (some (front, back)) = (s ≡ front ++ b ∷ back) × Lacks b back

pub split_last-Splits : (b : ℕ) (s : Bytes) → Splits b s (split_last b s)
unfolding split_last
split_last-Splits b [] = tt
split_last-Splits b (c ∷ cs) = step (split_last b cs) (split_last-Splits b cs)
  where
    step :
        (r : Option (Bytes × Bytes))
        → Splits b cs r
        → Splits b (c ∷ cs) (elim r [
          | some (front, back) ↦ some (c ∷ front, back)
          | none ↦ if c == b then some ([], cs) else none
        ])
    step none h = elim (Bool-cases (c == b)) [
      | inl same ↦ rw same (ap (λ k. k ∷ cs) ((==_iff c b).0 same), h)
      | inr other ↦ rw other (other, h)
    ]
    step (some (front, back)) h = (ap (◌∷◌ c) h.0, h.1)

pub split_last-Lacks : (b : ℕ) (s : Bytes) → Lacks b s → split_last b s ≡ none
unfolding split_last
split_last-Lacks b [] h = refl
split_last-Lacks b (c ∷ cs) h = rw (split_last-Lacks b cs h.1, h.0)

pub split_last-append :
    (b : ℕ) (front back : Bytes)
    → Lacks b back
    → split_last b (front ++ b ∷ back) ≡ some (front, back)
unfolding split_last
split_last-append b [] back h = rw (split_last-Lacks b back h) (ground arith)
split_last-append b (c ∷ front) back h = rw (split_last-append b front back h)
