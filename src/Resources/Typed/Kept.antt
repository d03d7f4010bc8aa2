-- ===== src/Resources/Typed/Kept.antt =====
-- Each operation on the table of resources keeps the classes of the resources right.
use mathlib.Core.Option.{some-injective}
use rune_old.Base.{
  sym, subst, rune_assert, is_some, ℕ, zero, suc, Bool, true, false, ◌≡◌, refl, Option, none, some,
  Bytes, Outcome, ok, ◌>>=◌, ◌>>◌, or_fault, for_each, Bool-cases, inl, inr, ◌==◌, ==_iff,
  get_value_or, Option-cases, Ensures, Ensures-bind, Ensures-always, for_each-Ensures,
}
use rune_old.Maps.{find, nat_eq}
use rune_old.Maps.Laws.{find-upsert, find-assign}
use rune_old.Resources.Types.{
  ResourceType, type_code, not_loaded, loading, loaded, ResourceId, ResourceMetadata, fresh,
}
use rune_old.Resources.Growth.{entry}
use rune_old.Resources.Invariant.{entry-modify, entry_loading}
use rune_old.Resources.{
  MetadataMap, FactoryFunc, SystemResources, RegistryNode, get_metadata, modify, get_factory,
  register_factory, unload, load_self, load, register_node, is_not_loaded,
}

-- `class_of` is the class of a resource, given by the type that stands for it.
-- Only the entries of some resources are looked at.
module _ {Res : Type 0} (class_of : Res → ResourceType) (Watched : ResourceId → Type 0) where
  abbrev pub HasClass : ℕ → Option Res → Type 0
  HasClass code none = Unit
  HasClass code (some r) = type_code (class_of r) ≡ code

  -- The factory makes resources of one class only.
  abbrev pub Makes : ℕ → Option (FactoryFunc Res) → Type 0
  Makes code none = Unit
  Makes code (some f) =
      (map : MetadataMap Res) (m : ResourceMetadata Res) → Ensures (HasClass code) (f map m)

  abbrev pub IsTyped : ResourceMetadata Res → Type 0
  IsTyped m = m.state ≡ loaded → HasClass (type_code m.type) m.resource

  pub record Typed (s : SystemResources Res) : Type 0 where
    pub factories_typed :
        (code : ℕ) (f : Option (FactoryFunc Res)) → find code s.factories ≡ some f → Makes code f
    pub entries_typed :
        (id : ResourceId) (m : ResourceMetadata Res) → Watched id → entry id s ≡ some m → IsTyped m

  pub Typed-modify :
      (id : ResourceId) (f : ResourceMetadata Res → ResourceMetadata Res) (s : SystemResources Res)
      → Typed s
      → (Watched id → IsTyped (f (get_value_or (entry id s) fresh)))
      → Typed (modify id f s)
  unfolding modify
  Typed-modify id f s t h = record {
    factories_typed = t.factories_typed;
    entries_typed = λ j m w found. (elim (Bool-cases (id == j)) [
      | inl same ↦
          let now : some (f (get_value_or (entry id s) fresh)) ≡ some m =
            rw (entry-modify id j f s, same) at found in
          rw (← some-injective _ m now) (h (subst Watched (sym ((==_iff id j).0 same)) w))
      | inr other ↦ t.entries_typed j m w (rw (entry-modify id j f s, other) at found)
    ]);
  }

  Makes-get_factory :
      (type : ResourceType) (s : SystemResources Res)
      → Typed s
      → Makes (type_code type) (get_factory type s).0
  unfolding get_factory
  Makes-get_factory type s t = elim (Option-cases (find (type_code type) s.factories)) [
    | inl missing ↦ rw (get_factory, missing) tt
    | inr (f, found) ↦ rw (get_factory, found) (t.factories_typed (type_code type) f found)
  ]

  Makes-get_value_or :
      (code : ℕ) (o : Option (Option (FactoryFunc Res)))
      → ((f : Option (FactoryFunc Res)) → o ≡ some f → Makes code f)
      → Makes code (get_value_or o none)
  Makes-get_value_or code none h = tt
  Makes-get_value_or code (some f) h = h f refl

  pub Typed-get_factory :
      (type : ResourceType) (s : SystemResources Res) → Typed s → Typed (get_factory type s).1
  unfolding get_factory
  Typed-get_factory type s t = record {
    factories_typed = λ code f found. (elim (Bool-cases (type_code type == code)) [
      | inl same ↦
          let here = (==_iff (type_code type) code).0 same in
          let now : some (get_value_or (find (type_code type) s.factories) none) ≡ some f =
            rw (find-upsert (type_code type) code none (λ g. g) s.factories, same) at found in
          rw (← some-injective _ f now, ← here)
            (Makes-get_value_or (type_code type) (find (type_code type) s.factories)
              (t.factories_typed (type_code type)))
      | inr other ↦
          t.factories_typed code f
            (rw (find-upsert (type_code type) code none (λ g. g) s.factories, other) at found)
    ]);
    entries_typed = t.entries_typed;
  }

  pub Typed-loading :
      (id : ResourceId) (s : SystemResources Res)
      → Typed s
      → Typed (modify id (λ m. record m { state = loading }) s)
  Typed-loading id s t = Typed-modify id (λ m. record m { state = loading }) s t (λ _ e. cc)

  pub Typed-load_self :
      (debug : Bool) (id : ResourceId) (s : SystemResources Res)
      → Typed s
      → Ensures Typed (load_self debug id s)
  unfolding load_self get_metadata
  Typed-load_self debug id s t = elim (Option-cases (entry id s)) [
    | inl missing ↦ rw (load_self, missing) tt
    | inr (m, found) ↦
        rw (load_self, found) (made m found (get_factory m.type s).0 (Makes-get_factory m.type s t))
  ]
    where
      made :
          (m : ResourceMetadata Res)
          → entry id s ≡ some m
          → (f : Option (FactoryFunc Res)) → Makes (type_code m.type) f
          → Ensures Typed (elim f [
            | none ↦ ok (get_factory m.type s).1
            | some factory ↦ do
              let s' = modify id (λ m. record m { state = loading }) (get_factory m.type s).1
              m' ← get_metadata id s'
              r ← factory s'.metadata_map m'
              rune_assert debug (is_some r)
              ok (modify id (λ m. record m { resource = r; state = loaded }) s')
          ])
      made m found none makes = Typed-get_factory m.type s t
      made m found (some factory) makes =
          let s' = modify id (λ m. record m { state = loading }) (get_factory m.type s).1 in
          let t' = Typed-loading id (get_factory m.type s).1 (Typed-get_factory m.type s t) in
          Ensures-bind (λ _. Unit {0}) Typed (get_metadata id s') _
            (Ensures-always (get_metadata id s'))
            (λ m' _.
              Ensures-bind (HasClass (type_code m.type)) Typed (factory s'.metadata_map m') _
                (makes s'.metadata_map m')
                (λ r class.
                  Ensures-bind (λ _. Unit {0}) Typed (rune_assert debug (is_some r)) _
                    (Ensures-always (rune_assert debug (is_some r)))
                    (λ _ _.
                      Typed-modify id (λ m. record m { resource = r; state = loaded }) s' t'
                        (λ _ _. rw (entry_loading m.type s id m found) class))))

  pub Typed-load :
      (debug : Bool) (fuel : ℕ) (id : ResourceId) (s : SystemResources Res)
      → Typed s
      → Ensures Typed (load debug fuel id s)
  unfolding load
  Typed-load debug zero id s t = tt
  Typed-load debug (suc fuel) id s t =
      Ensures-bind (λ _. Unit {0}) Typed (get_metadata id s) _ (Ensures-always (get_metadata id s))
        (λ m _. branch m (is_not_loaded m.state) (
          for_each-Ensures Typed (load debug fuel) (λ d u. Typed-load debug fuel d u) m.dependencies
            s t))
    where
      branch :
          (m : ResourceMetadata Res) (new : Bool)
          → Ensures Typed (for_each (load debug fuel) m.dependencies s)
          → Ensures Typed (elim new [
            | false ↦ ok s
            | true ↦ for_each (load debug fuel) m.dependencies s >>= load_self debug id
          ])
      branch m false all = t
      branch m true all =
          Ensures-bind Typed Typed (for_each (load debug fuel) m.dependencies s)
            (load_self debug id) all (λ s' t'. Typed-load_self debug id s' t')

  pub Typed-unload :
      (id : ResourceId) (s : SystemResources Res) → Typed s → Ensures Typed (unload id s)
  unfolding unload
  Typed-unload id s t =
      Ensures-bind (λ _. Unit {0}) Typed (get_metadata id s) _ (Ensures-always (get_metadata id s))
        (λ _ _.
          Typed-modify id (λ m. record m { state = not_loaded; resource = none }) s t (λ _ e. cc))

  pub Typed-register_node :
      (debug : Bool) (filename : Bytes) (n : RegistryNode) (s : SystemResources Res)
      → Typed s
      → Ensures Typed (register_node debug filename n s)
  unfolding register_node
  Typed-register_node debug filename n s t = after (rune_assert debug (is_some n.id)) _ λ _.
      after (or_fault n.id _) _ λ id.
        after (or_fault n.type _) _
          λ _. after (or_fault n.source _) _ λ _. Typed-modify id _ s t (λ _ e. cc)
    where
      after :
          {A : Type 0} (m : Outcome A) (f : A → Outcome (SystemResources Res))
          → ((a : A) → Ensures Typed (f a))
          → Ensures Typed (m >>= f)
      after m f h = Ensures-bind (λ _. Unit {0}) Typed m _ (Ensures-always m) (λ a _. h a)

  pub Typed-register_factory :
      (type : ResourceType) (f : FactoryFunc Res) (s : SystemResources Res)
      → Makes (type_code type) (some f)
      → Typed s
      → Typed (register_factory type f s)
  unfolding register_factory
  Typed-register_factory type f s makes t = record {
    factories_typed = λ code g found. (elim (Bool-cases (type_code type == code)) [
      | inl same ↦
          let now : some (some f) ≡ some g =
            rw (find-assign (type_code type) code (some f) s.factories, same) at found in
          rw (← some-injective (some f) g now, ← (==_iff (type_code type) code).0 same) makes
      | inr other ↦
          t.factories_typed code g
            (rw (find-assign (type_code type) code (some f) s.factories, other) at found)
    ]);
    entries_typed = t.entries_typed;
  }
