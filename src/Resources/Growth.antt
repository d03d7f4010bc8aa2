-- ===== src/Resources/Growth.antt =====
-- How the table of resources may change while resources are loaded.
use rune_old.Base.{◌≡◌, ◌≢◌, refl, ◌∙◌, Option, none, some}
use rune_old.Maps.{find, nat_eq}
use rune_old.Resources.Types.{loading, loaded, ResourceId, ResourceMetadata}
use rune_old.Resources.{SystemResources}

module _ {Res : Type 0} where
  -- The entry of a resource.
  abbrev pub entry : ResourceId → SystemResources Res → Option (ResourceMetadata Res)
  entry id s = find id s.metadata_map

  abbrev pub Registered : ResourceId → SystemResources Res → Type 0
  Registered id s = (m : ResourceMetadata Res) × (entry id s ≡ some m)

  abbrev pub IsLoaded : ResourceId → SystemResources Res → Type 0
  IsLoaded id s = (m : ResourceMetadata Res) × (entry id s ≡ some m) × (m.state ≡ loaded)

  -- How an entry may change while resources are loaded.
  pub record Grows (m m' : ResourceMetadata Res) : Type 0 where
    pub type_kept : m'.type ≡ m.type
    pub dependencies_kept : m'.dependencies ≡ m.dependencies
    pub loaded_kept : m.state ≡ loaded → m'.state ≡ loaded
    pub settled_kept : m.state ≢ loading → m'.state ≢ loading

  abbrev pub Grown : Option (ResourceMetadata Res) → Option (ResourceMetadata Res) → Type 0
  Grown none none = Unit
  Grown (some m) (some m') = Grows m m'
  Grown _ _ = ⊥

  -- The entries are the same, and each has changed in such a way at most.
  abbrev pub Extends : SystemResources Res → SystemResources Res → Type 0
  Extends s s' = (id : ResourceId) → Grown (entry id s) (entry id s')

  pub Grows-refl : (m : ResourceMetadata Res) → Grows m m
  Grows-refl m = record {
    type_kept = refl;
    dependencies_kept = refl;
    loaded_kept = λ h. h;
    settled_kept = λ h. h;
  }

  pub Grown-refl : (o : Option (ResourceMetadata Res)) → Grown o o
  Grown-refl none = tt
  Grown-refl (some m) = Grows-refl m

  Grown-trans : (a b c : Option (ResourceMetadata Res)) → Grown a b → Grown b c → Grown a c
  Grown-trans none none none g h = tt
  Grown-trans (some a) (some b) (some c) g h = record {
    type_kept = h.type_kept ∙ g.type_kept;
    dependencies_kept = h.dependencies_kept ∙ g.dependencies_kept;
    loaded_kept = λ e. h.loaded_kept (g.loaded_kept e);
    settled_kept = λ e. h.settled_kept (g.settled_kept e);
  }
  Grown-trans none none (some c) g h = elim h [ ]
  Grown-trans none (some b) c g h = elim g [ ]
  Grown-trans (some a) none c g h = elim g [ ]
  Grown-trans (some a) (some b) none g h = elim h [ ]

  pub Extends-trans : (a b c : SystemResources Res) → Extends a b → Extends b c → Extends a c
  Extends-trans a b c g h id = Grown-trans (entry id a) (entry id b) (entry id c) (g id) (h id)

  -- The entry in the old state that an entry in the new one comes from, and the other way round.
  Grown-back :
      (o : Option (ResourceMetadata Res)) (m' : ResourceMetadata Res)
      → Grown o (some m')
      → (m : ResourceMetadata Res) × (o ≡ some m) × Grows m m'
  Grown-back none m' g = elim g [ ]
  Grown-back (some m) m' g = (m, refl, g)

  Grown-on :
      (m : ResourceMetadata Res) (o : Option (ResourceMetadata Res))
      → Grown (some m) o
      → (m' : ResourceMetadata Res) × (o ≡ some m') × Grows m m'
  Grown-on m none g = elim g [ ]
  Grown-on m (some m') g = (m', refl, g)

  pub Extends-back :
      (s s' : SystemResources Res) (id : ResourceId) (m' : ResourceMetadata Res)
      → Extends s s'
      → entry id s' ≡ some m'
      → (m : ResourceMetadata Res) × (entry id s ≡ some m) × Grows m m'
  Extends-back s s' id m' ext h = Grown-back (entry id s) m' (rw h at (ext id))

  pub Extends-on :
      (s s' : SystemResources Res) (id : ResourceId) (m : ResourceMetadata Res)
      → Extends s s'
      → entry id s ≡ some m
      → (m' : ResourceMetadata Res) × (entry id s' ≡ some m') × Grows m m'
  Extends-on s s' id m ext h = Grown-on m (entry id s') (rw h at (ext id))

  pub IsLoaded-Extends :
      (s s' : SystemResources Res) (id : ResourceId) → Extends s s' → IsLoaded id s → IsLoaded id s'
  IsLoaded-Extends s s' id ext (m, found, l) =
      let (m', found', g) = Extends-on s s' id m ext found in (m', found', g.loaded_kept l)
