-- ===== src/Resources/Invariant.antt =====
-- The invariant that `SystemResources::load` keeps, and the step that loads one resource whose
-- dependencies are loaded.
use rune_old.Base.{
  rune_assert-true, ℕ, ◌<◌, Bool, ◌≡◌, ◌≢◌, refl, ap, inl, inr, Option, none, some, [],
  if◌then◌else◌, ok, or_fault, arith, Bool-cases, ==_iff, Elem, get_value_or, ◌==◌,
}
use mathlib.Core.Option
use rune_old.Maps.{find, nat_eq}
use rune_old.Maps.Laws.{find-upsert}
use rune_old.Resources.Types.{
  ResourceType, type_code, loading, loaded, ResourceId, ResourceMetadata, fresh,
}
use rune_old.Resources.Growth.{
  entry, Registered, IsLoaded, Extends, Grown-refl, Extends-back, Extends-on, IsLoaded-Extends,
}
use rune_old.Resources.{
  MetadataMap, FactoryFunc, SystemResources, get_metadata, modify, get_factory, load_self,
}

module _ {Res : Type 0} where
  -- The type has a factory that always returns a resource.
  abbrev pub Works : ℕ → SystemResources Res → Type 0
  Works type s =
      (f : FactoryFunc Res) × (find type s.factories ≡ some (some f))
      × ((map : MetadataMap Res) (m : ResourceMetadata Res) → (r : Res) × (f map m ≡ ok (some r)))

  -- Dependencies are registered and have a lower rank than what depends on them, no load is under
  -- way, what is loaded has its dependencies loaded, and every resource's type has a factory.
  pub record Sound (rank : ResourceId → ℕ) (s : SystemResources Res) : Type 0 where
    pub ranked :
        (id : ResourceId) (m : ResourceMetadata Res) (d : ResourceId)
        → entry id s ≡ some m
        → Elem d m.dependencies
        → (rank d < rank id) × Registered d s
    pub settled :
        (id : ResourceId) (m : ResourceMetadata Res) → entry id s ≡ some m → m.state ≢ loading
    pub closed :
        (id : ResourceId) (m : ResourceMetadata Res) (d : ResourceId)
        → entry id s ≡ some m
        → m.state ≡ loaded
        → Elem d m.dependencies
        → IsLoaded d s
    pub ready :
        (id : ResourceId) (m : ResourceMetadata Res)
        → entry id s ≡ some m
        → Works (type_code m.type) s

  pub entry-modify :
      (id j : ResourceId) (f : ResourceMetadata Res → ResourceMetadata Res)
      (s : SystemResources Res)
      → entry j (modify id f s)
        ≡ (if id == j then some (f (get_value_or (entry id s) fresh)) else entry j s)
  unfolding modify
  entry-modify id j f s = find-upsert id j fresh f s.metadata_map

  -- The state behind a successful `load_self`.
  abbrev pub stored : ResourceId → Res → SystemResources Res → ResourceType → SystemResources Res
  stored id r s type =
      modify id (λ m. record m { resource = some r; state = loaded })
        (modify id (λ m. record m { state = loading }) (get_factory type s).1)

  entry-stored :
      (id j : ResourceId) (r : Res) (s : SystemResources Res) (type : ResourceType)
      (m : ResourceMetadata Res)
      → entry id s ≡ some m
      → entry j (stored id r s type)
        ≡ (if id == j then some (record m { resource = some r; state = loaded }) else entry j s)
  unfolding get_factory
  entry-stored id j r s type m h = ground (
    arith,
    entry-modify id j (λ m. record m { resource = some r; state = loaded })
        (modify id (λ m. record m { state = loading }) (get_factory type s).1),
    entry-modify id id (λ m. record m { state = loading }) (get_factory type s).1,
    entry-modify id j (λ m. record m { state = loading }) (get_factory type s).1,
  )

  pub get_metadata-eq-ok :
      (id : ResourceId) (s : SystemResources Res) (m : ResourceMetadata Res)
      → entry id s ≡ some m
      → get_metadata id s ≡ ok m
  unfolding get_metadata
  get_metadata-eq-ok id s m h = rw (h, or_fault)

  get_factory-eq-some :
      (type : ResourceType) (s : SystemResources Res) (f : FactoryFunc Res)
      → find (type_code type) s.factories ≡ some (some f)
      → (get_factory type s).0 ≡ some f
  unfolding get_factory
  get_factory-eq-some type s f h = ground arith

  entry-get_factory :
      (type : ResourceType) (s : SystemResources Res) (id : ResourceId)
      → entry id (get_factory type s).1 ≡ entry id s
  unfolding get_factory
  entry-get_factory type s id = refl

  pub entry_loading :
      (type : ResourceType) (s : SystemResources Res) (id : ResourceId) (m : ResourceMetadata Res)
      → entry id s ≡ some m
      → entry id (modify id (λ m. record m { state = loading }) (get_factory type s).1)
        ≡ some (record m { state = loading })
  entry_loading type s id m h = ground (
    arith,
    entry-modify id id (λ m. record m { state = loading }) (get_factory type s).1,
    entry-get_factory type s id,
  )

  pub load_self-stored :
      (debug : Bool) (id : ResourceId) (s : SystemResources Res) (m : ResourceMetadata Res)
      → entry id s ≡ some m
      → Works (type_code m.type) s
      → (r : Res) × (load_self debug id s ≡ ok (stored id r s m.type))
  unfolding load_self
  load_self-stored debug id s m h (f, found, total) =
      let s' = modify id (λ m. record m { state = loading }) (get_factory m.type s).1 in
      let loading_m : ResourceMetadata Res = record m { state = loading } in
      let (r, made) = total s'.metadata_map loading_m in
      (
        r,
        ground (
          arith,
          get_metadata-eq-ok id s m h,
          get_factory-eq-some m.type s f found,
          get_metadata-eq-ok id s' loading_m (entry_loading m.type s id m h),
          made,
          rune_assert-true debug,
        ),
      )

  Works-stored :
      (id : ResourceId) (r : Res) (s : SystemResources Res) (type : ResourceType) (t : ℕ)
      → Works t s
      → Works t (stored id r s type)
  unfolding get_factory modify
  Works-stored id r s type t (f, found, total) = (
    f,
    ground (
      arith,
      find-upsert (type_code type) t none (λ (g : Option (FactoryFunc Res)). g) s.factories,
    ),
    total,
  )

  -- Storing a resource whose dependencies are loaded.
  module _ (rank : ResourceId → ℕ) (s : SystemResources Res) (sound : Sound rank s)
      (id : ResourceId) (m : ResourceMetadata Res) (found : entry id s ≡ some m) (r : Res) where
    pub stored-Extends : Extends s (stored id r s m.type)
    stored-Extends j = elim (Bool-cases (id == j)) [
      | inl same ↦
          let e = (==_iff id j).0 same in
          let before : entry j s ≡ some m = rw (← e) found in
          rw (before, entry-stored id j r s m.type m found, same)
            (record {
              type_kept = refl;
              dependencies_kept = refl;
              loaded_kept = λ _. refl;
              settled_kept = λ _ h. cc;
            })
      | inr other ↦ rw (entry-stored id j r s m.type m found, other) (Grown-refl (entry j s))
    ]

    pub stored-IsLoaded : IsLoaded id (stored id r s m.type)
    stored-IsLoaded = (
      record m { resource = some r; state = loaded },
      rw (entry-stored id id r s m.type m found, (==_iff id id).1 refl),
      refl,
    )

    pub stored-Sound :
        ((d : ResourceId) → Elem d m.dependencies → IsLoaded d s)
        → Sound rank (stored id r s m.type)
    stored-Sound deps = record {
      ranked = λ j m' d h e.
          let (m0, found0, g) = Extends-back s s' j m' stored-Extends h in
          let (lower, registered) = sound.ranked j m0 d found0 (rw g.dependencies_kept at e) in
          let (md, foundd, _) = Extends-on s s' d registered.0 stored-Extends registered.1 in
          (lower, (md, foundd));
      settled = λ j m' h.
          let (m0, found0, g) = Extends-back s s' j m' stored-Extends h in
          g.settled_kept (sound.settled j m0 found0);
      closed = λ j m' d h l e. IsLoaded-Extends s s' d stored-Extends (before j m' d h l e);
      ready = λ j m' h.
          let (m0, found0, g) = Extends-back s s' j m' stored-Extends h in
          rw g.type_kept (Works-stored id r s m.type (type_code m0.type) (sound.ready j m0 found0));
    }
      where
        s' : SystemResources Res
        s' = stored id r s m.type

        before :
            (j : ResourceId) (m' : ResourceMetadata Res) (d : ResourceId)
            → entry j s' ≡ some m'
            → m'.state ≡ loaded
            → Elem d m'.dependencies
            → IsLoaded d s
        before j m' d h l e = elim (Bool-cases (id == j)) [
          | inl same ↦
              let now : some (record m { resource = some r; state = loaded }) ≡ some m' =
                rw (entry-stored id j r s m.type m found, same) at h in
              deps d (
                rw
                  (← ap
                    (λ x.
                      get_value_or (Option.map (λ (x : ResourceMetadata Res). x.dependencies) x) [])
                    now)
                  at e)
          | inr other ↦
              sound.closed j m' d (rw (entry-stored id j r s m.type m found, other) at h) l e
        ]
