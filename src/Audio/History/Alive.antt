-- ===== src/Audio/History/Alive.antt =====
-- The sources of OpenAL that are alive behind the calls so far, and the table that tracks them.
use rune_old.Base.{
  ℕ, ◌≡◌, refl, sym, ap, ◌∙◌, Bool, true, false, some, is_some, List, [], ◌∷◌, ◌++◌, if◌then◌else◌,
  ◌==◌, arith, All, Bool-cases, inl, inr, ==_iff,
}
use rune_old.Maps.{find, upsert, assign, erase, nat_eq}
use rune_old.Maps.Laws.{find-assign}
use rune_old.Audio.{
  AlCall, al_gen_source, al_delete_source, SourceData, Audio, call, insert, remove,
}
use rune_old.Audio.Shutdown.{Distinct, DistinctNumbers}

-- Whether a source is alive behind a call, if it was before.
abbrev pub alive_behind : {F : Type 0} → ℕ → AlCall F → Bool → Bool
alive_behind k (al_gen_source j) b = if j == k then true else b
alive_behind k (al_delete_source j) b = if j == k then false else b
alive_behind k c b = b

abbrev pub alive_from : {F : Type 0} → ℕ → Bool → List (AlCall F) → Bool
alive_from k b [] = b
alive_from k b (c ∷ cs) = alive_from k (alive_behind k c b) cs

-- OpenAL has generated the source, and not deleted it since.
abbrev pub source_alive : {F : Type 0} → ℕ → List (AlCall F) → Bool
source_alive k calls = alive_from k false calls

pub alive_from-append :
    {F : Type 0} (k : ℕ) (b : Bool) (xs ys : List (AlCall F))
    → alive_from k b (xs ++ ys) ≡ alive_from k (alive_from k b xs) ys
alive_from-append k b [] ys = refl
alive_from-append k b (x ∷ xs) ys = alive_from-append k (alive_behind k x b) xs ys

-- The table of sources has an entry for each source that is alive and no other, and no entry of the
-- tables stands twice.
pub record Tracks {F : Type 0} (s : Audio F) : Type 0 where
  pub distinct : Distinct s.sources
  pub distinct_audios : DistinctNumbers s.audios
  pub tracked : (k : ℕ) → is_some (find k s.sources) ≡ source_alive k s.calls

pub assign-fresh :
    {V : Type 0} (j k : ℕ) (v : V) (m : List (ℕ × V))
    → (k == j) ≡ false
    → All (λ q. (q.0 == j) ≡ false) m
    → All (λ q. (q.0 == j) ≡ false) (assign k v m)
unfolding assign upsert
assign-fresh j k v [] h a = (h, tt)
assign-fresh j k v ((i, w) ∷ m) h (a, rest) = elim (Bool-cases (i == k)) [
  | inl same ↦ rw same (a, rest)
  | inr other ↦ rw other (a, assign-fresh j k v m h rest)
]

pub assign-Distinct :
    {V : Type 0} (k : ℕ) (v : V) (m : List (ℕ × V)) → Distinct m → Distinct (assign k v m)
unfolding assign upsert
assign-Distinct k v [] d = (tt, tt)
assign-Distinct k v ((i, w) ∷ m) (fresh, d) = elim (Bool-cases (i == k)) [
  | inl same ↦ rw same (fresh, d)
  | inr other ↦ rw other (assign-fresh i k v m (ground arith) fresh, assign-Distinct k v m d)
]

pub erase-fresh :
    {V : Type 0} (j k : ℕ) (m : List (ℕ × V))
    → All (λ q. (q.0 == j) ≡ false) m
    → All (λ q. (q.0 == j) ≡ false) (erase k m)
unfolding erase
erase-fresh j k [] a = tt
erase-fresh j k ((i, w) ∷ m) (a, rest) = elim (Bool-cases (i == k)) [
  | inl same ↦ rw same (erase-fresh j k m rest)
  | inr other ↦ rw other (a, erase-fresh j k m rest)
]

pub erase-Distinct : {V : Type 0} (k : ℕ) (m : List (ℕ × V)) → Distinct m → Distinct (erase k m)
unfolding erase
erase-Distinct k [] d = tt
erase-Distinct k ((i, w) ∷ m) (fresh, d) = elim (Bool-cases (i == k)) [
  | inl same ↦ rw same (erase-Distinct k m d)
  | inr other ↦ rw other (erase-fresh i k m fresh, erase-Distinct k m d)
]

pub remove-fresh :
    (j k : ℕ) (xs : List ℕ)
    → All (λ y. (y == j) ≡ false) xs
    → All (λ y. (y == j) ≡ false) (remove k xs)
remove-fresh j k [] a = tt
remove-fresh j k (i ∷ xs) (a, rest) = elim (Bool-cases (i == k)) [
  | inl same ↦ rw same (remove-fresh j k xs rest)
  | inr other ↦ rw other (a, remove-fresh j k xs rest)
]

pub remove-absent : (k : ℕ) (xs : List ℕ) → All (λ y. (y == k) ≡ false) (remove k xs)
remove-absent k [] = tt
remove-absent k (i ∷ xs) = elim (Bool-cases (i == k)) [
  | inl same ↦ rw same (remove-absent k xs)
  | inr other ↦ rw other (other, remove-absent k xs)
]

pub remove-DistinctNumbers :
    (k : ℕ) (xs : List ℕ) → DistinctNumbers xs → DistinctNumbers (remove k xs)
remove-DistinctNumbers k [] d = tt
remove-DistinctNumbers k (i ∷ xs) (fresh, d) = elim (Bool-cases (i == k)) [
  | inl same ↦ rw same (remove-DistinctNumbers k xs d)
  | inr other ↦ rw other (remove-fresh i k xs fresh, remove-DistinctNumbers k xs d)
]

pub insert-DistinctNumbers :
    (k : ℕ) (xs : List ℕ) → DistinctNumbers xs → DistinctNumbers (insert k xs)
insert-DistinctNumbers k xs d = (remove-absent k xs, remove-DistinctNumbers k xs d)

-- A call that neither generates nor deletes a source.
abbrev pub Quiet : {F : Type 0} → AlCall F → Type 0
Quiet c = (k : ℕ) (b : Bool) → alive_behind k c b ≡ b

-- The table, and the sources that are alive, are the same in the two states.
pub record Same {F : Type 0} (s s' : Audio F) : Type 0 where
  pub same_sources : s'.sources ≡ s.sources
  pub same_audios : s'.audios ≡ s.audios
  pub same_alive : (k : ℕ) → source_alive k s'.calls ≡ source_alive k s.calls

pub Same-call : {F : Type 0} (c : AlCall F) (s : Audio F) → Quiet c → Same s (call c s)
Same-call c s quiet = record {
  same_sources = refl;
  same_audios = refl;
  same_alive = λ k. alive_from-append k false s.calls (c ∷ []) ∙ quiet k (source_alive k s.calls);
}

pub Same-trans : {F : Type 0} (s t u : Audio F) → Same s t → Same t u → Same s u
Same-trans s t u h g = record {
  same_sources = g.same_sources ∙ h.same_sources;
  same_audios = g.same_audios ∙ h.same_audios;
  same_alive = λ k. g.same_alive k ∙ h.same_alive k;
}

pub Same-Tracks : {F : Type 0} (s s' : Audio F) → Same s s' → Tracks s → Tracks s'
Same-Tracks s s' h t = record {
  distinct = rw h.same_sources t.distinct;
  distinct_audios = rw h.same_audios t.distinct_audios;
  tracked = λ k. rw h.same_sources (t.tracked k) ∙ sym (h.same_alive k);
}

pub call-Tracks : {F : Type 0} (c : AlCall F) (s : Audio F) → Quiet c → Tracks s → Tracks (call c s)
call-Tracks c s quiet t = Same-Tracks s (call c s) (Same-call c s quiet) t

-- An entry that is there is written over.
pub rewritten-Tracks :
    {F : Type 0} (k : ℕ) (d d' : SourceData) (s : Audio F)
    → find k s.sources ≡ some d
    → Tracks s
    → Tracks (record s { sources = assign k d' s.sources })
rewritten-Tracks k d d' s found t = record {
  distinct = assign-Distinct k d' s.sources t.distinct;
  distinct_audios = t.distinct_audios;
  tracked = λ j. (elim (Bool-cases (k == j)) [
    | inl same ↦
        let here : find j s.sources ≡ some d =
          ap (λ x. find x s.sources) (sym ((==_iff k j).0 same)) ∙ found in
        rw (find-assign k j d' s.sources, same) (rw here at (t.tracked j))
    | inr other ↦ rw (find-assign k j d' s.sources, other) (t.tracked j)
  ]);
}

pub replaced-Tracks :
    {F : Type 0} (k : ℕ) (d d' : SourceData) (s s' : Audio F)
    → find k s.sources ≡ some d
    → Same s s'
    → Tracks s
    → Tracks (record s' { sources = assign k d' s.sources })
replaced-Tracks k d d' s s' found h t =
    let u : Audio _ = record s' { sources = s.sources } in
    let same : Same s u = record {
      same_sources = refl;
      same_audios = h.same_audios;
      same_alive = h.same_alive;
    } in
    rewritten-Tracks k d d' u found (Same-Tracks s u same t)
