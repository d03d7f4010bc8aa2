-- ===== src/Audio/Shutdown.antt =====
-- The end of the audio system.
use rune_old.Base.{
  ℕ, zero, suc, ◌≤◌, ◌≡◌, refl, sym, ap, ◌∙◌, true, false, List, [], ◌∷◌, ◌++◌, append_assoc,
  append-nil, map, ◌==◌, arith, length, All, ok,
}
use rune_old.Audio.{
  Al, AlCall, al_delete_buffer, al_delete_source, SourceData, Audio, remove, destroy_audio,
  destroy_source, destroy_sources, destroy_audios, shutdown,
}
use rune_old.Maps.{erase, nat_eq}

-- No key stands twice.
abbrev pub Distinct : {V : Type 0} → List (ℕ × V) → Type 0
Distinct [] = Unit
Distinct (p ∷ m) = All (λ q. (q.0 == p.0) ≡ false) m × Distinct m

abbrev pub DistinctNumbers : List ℕ → Type 0
DistinctNumbers [] = Unit
DistinctNumbers (x ∷ xs) = All (λ y. (y == x) ≡ false) xs × DistinctNumbers xs

erase-none :
    {V : Type 0} (k : ℕ) (m : List (ℕ × V)) → All (λ q. (q.0 == k) ≡ false) m → erase k m ≡ m
unfolding erase
erase-none k [] h = refl
erase-none k ((j, v) ∷ m) (h, hs) = rw (h) (ap (◌∷◌ (j, v)) (erase-none k m hs))

remove-none : (k : ℕ) (xs : List ℕ) → All (λ y. (y == k) ≡ false) xs → remove k xs ≡ xs
remove-none k [] h = refl
remove-none k (x ∷ xs) (h, hs) = rw (h) (ap (◌∷◌ x) (remove-none k xs hs))

==_refl : (k : ℕ) → (k == k) ≡ true
==_refl k = ground arith

erase-head :
    {V : Type 0} (k : ℕ) (v : V) (m : List (ℕ × V))
    → All (λ q. (q.0 == k) ≡ false) m
    → erase k ((k, v) ∷ m) ≡ m
unfolding erase
erase-head k v m h = rw (==_refl k) (erase-none k m h)

remove-head : (k : ℕ) (xs : List ℕ) → All (λ y. (y == k) ≡ false) xs → remove k (k ∷ xs) ≡ xs
remove-head k xs h = rw (==_refl k) (remove-none k xs h)

module _ {F : Type 0} (al : Al F) where
  destroy_sources-all :
      (n : ℕ) (m : List (ℕ × SourceData)) (audios : List ℕ) (calls : List (AlCall F))
      → length m ≤ n
      → Distinct m
      → destroy_sources al n (record { sources = m; audios = audios; calls = calls })
        ≡ ok (record {
          sources = [];
          audios = audios;
          calls = calls ++ map (λ p. al_delete_source p.0) m;
        })
  unfolding destroy_sources destroy_source
  destroy_sources-all zero [] audios calls h d =
      ap (λ c. ok (record { sources = []; audios = audios; calls = c })) (sym (append-nil calls))
  destroy_sources-all zero (p ∷ m) audios calls h d = absurd (omega arith)
  destroy_sources-all (suc n) [] audios calls h d =
      ap (λ c. ok (record { sources = []; audios = audios; calls = c })) (sym (append-nil calls))
  destroy_sources-all (suc n) ((k, v) ∷ m) audios calls h (fresh, d) =
      ap
        (λ rest.
          destroy_sources al n
            (record { sources = rest; audios = audios; calls = calls ++ al_delete_source k ∷ [] }))
        (erase-head k v m fresh)
      ∙ destroy_sources-all n m audios (calls ++ al_delete_source k ∷ []) (omega arith) d
      ∙ ap (λ c. ok (record { sources = []; audios = audios; calls = c }))
          (append_assoc calls (al_delete_source k ∷ []) _)

  destroy_audios-all :
      (n : ℕ) (audios : List ℕ) (calls : List (AlCall F))
      → length audios ≤ n
      → DistinctNumbers audios
      → destroy_audios al n (record { sources = []; audios = audios; calls = calls })
        ≡ ok (record { sources = []; audios = []; calls = calls ++ map al_delete_buffer audios })
  unfolding destroy_audios destroy_audio
  destroy_audios-all zero [] calls h d =
      ap (λ c. ok (record { sources = []; audios = []; calls = c })) (sym (append-nil calls))
  destroy_audios-all zero (p ∷ m) calls h d = absurd (omega arith)
  destroy_audios-all (suc n) [] calls h d =
      ap (λ c. ok (record { sources = []; audios = []; calls = c })) (sym (append-nil calls))
  destroy_audios-all (suc n) (k ∷ m) calls h (fresh, d) =
      ap
        (λ rest.
          destroy_audios al n
            (record { sources = []; audios = rest; calls = calls ++ al_delete_buffer k ∷ [] }))
        (remove-head k m fresh)
      ∙ destroy_audios-all n m (calls ++ al_delete_buffer k ∷ []) (omega arith) d
      ∙ ap (λ c. ok (record { sources = []; audios = []; calls = c }))
          (append_assoc calls (al_delete_buffer k ∷ []) _)

-- `shutdown` ends: with fuel for the longer of the two tables, in neither of which an entry stands
-- twice, it returns with both empty, each source deleted once and behind them each audio's buffer.
pub shutdown-empties :
    {F : Type 0} (al : Al F) (fuel : ℕ) (s : Audio F)
    → length s.sources ≤ fuel
    → length s.audios ≤ fuel
    → Distinct s.sources
    → DistinctNumbers s.audios
    → shutdown al fuel s
      ≡ ok (record {
        sources = [];
        audios = [];
        calls =
            (s.calls ++ map (λ p. al_delete_source p.0) s.sources) ++ map al_delete_buffer s.audios;
      })
unfolding shutdown
shutdown-empties al fuel s h k d e =
    rw (destroy_sources-all al fuel s.sources s.audios s.calls h d)
      (destroy_audios-all al fuel s.audios _ k e)
