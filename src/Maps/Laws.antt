-- ===== src/Maps/Laws.antt =====
-- How the operations on maps determine `find`.
use rune_old.Base.{
  ◌≡◌, refl, none, some, List, [], ◌∷◌, if◌then◌else◌, arith, get_value_or, Elem, head, tail,
  Bool-cases, inl, inr, sym,
}
use rune_old.Maps.{Eq, find, upsert, assign, erase, keys}

module _ {ℓ κ} {K : Type ℓ} {V : Type κ} ⦃e : Eq K⦄ where
  pub find-upsert :
      (k j : K) (d : V) (f : V → V) (m : List (K × V))
      → find j (upsert k d f m)
        ≡ (if e.beq k j then some (f (get_value_or (find k m) d)) else find j m)
  unfolding find upsert
  find-upsert k j d f [] = refl
  find-upsert k j d f ((i, v) ∷ m) =
      ground (arith, e.beq_iff i k, e.beq_iff i j, e.beq_iff k j, find-upsert k j d f m)

  pub find-assign :
      (k j : K) (v : V) (m : List (K × V))
      → find j (assign k v m) ≡ (if e.beq k j then some v else find j m)
  unfolding assign
  find-assign k j v m = find-upsert k j v (λ _. v) m

  pub find-erase :
      (k j : K) (m : List (K × V)) → find j (erase k m) ≡ (if e.beq k j then none else find j m)
  unfolding find erase
  find-erase k j [] = ground arith
  find-erase k j ((i, v) ∷ m) =
      ground (arith, e.beq_iff i k, e.beq_iff i j, e.beq_iff k j, find-erase k j m)

  pub Elem-keys : (k : K) {v : V} (m : List (K × V)) → find k m ≡ some v → Elem k (keys m)
  unfolding find keys
  Elem-keys k [] h = cc
  Elem-keys k ((j, w) ∷ m) h = elim (Bool-cases (e.beq j k)) [
    | inl same ↦ head (sym ((e.beq_iff j k).0 same))
    | inr other ↦ tail (Elem-keys k m (rw other at h))
  ]

  pub find_of_Elem : (k : K) (m : List (K × V)) → Elem k (keys m) → (v : V) × (find k m ≡ some v)
  unfolding find keys
  find_of_Elem k [] h = elim h [ ]
  find_of_Elem k ((j, w) ∷ m) (head h) = (w, rw ((e.beq_iff j k).1 (sym h)))
  find_of_Elem k ((j, w) ∷ m) (tail h) = elim (Bool-cases (e.beq j k)) [
    | inl same ↦ (w, rw same)
    | inr other ↦ rw other (find_of_Elem k m h)
  ]
