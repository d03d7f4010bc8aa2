-- ===== src/Resources/Start/Nodes.antt =====
-- The loops of `SystemResources::initialise`: over the nodes of the registry file, and over the mesh
-- files of the data directory.
use mathlib.Core.Option.{some-injective}
use rune_old.Base.{
  rune_assert-true, ℕ, ◌<◌, ◌≡◌, refl, ap, ◌∙◌, Bool, ◌&&◌, Option, none, some, List, [], ◌∷◌, ◌++◌,
  map, Bytes, codes, equal, ok, for_each, Bool-cases, inl, inr, ◌==◌, ==_iff, get_value_or, Elem,
  head, tail, Elem-split, Elem-append_left, Elem-append_right,
}
use rune_old.Maps.{nat_eq}
use rune_old.Paths.{stem, extension, parent_path, join}
use rune_old.Resources.Types.{
  ResourceType, static_mesh, texture, material, type_code, of_byte, not_loaded, disk, ResourceId,
  ResourceMetadata, fresh,
}
use rune_old.Resources.Growth.{entry}
use rune_old.Resources.Invariant.{entry-modify}
use rune_old.Resources.{
  SystemResources, RegistryNode, DirEntry, modify, register_bin_files, register_node,
}

-- What a resource of the registry file says, and the node that says it.
pub record Declared : Type 0 where
  pub id : ResourceId
  pub type : ResourceType
  pub source : Bytes
  pub deps : List ResourceId

abbrev pub written : Declared → RegistryNode
written d = record {
  id = some d.id;
  type = some (type_code d.type);
  source = some d.source;
  deps = some d.deps;
}

-- One of the three types that have a name.
abbrev pub IsNamed : ResourceType → Type 0
IsNamed static_mesh = Unit
IsNamed texture = Unit
IsNamed material = Unit
IsNamed _ = ⊥

abbrev pub ids : List Declared → List ResourceId
ids ds = map (λ (d : Declared). d.id) ds

-- The type has a name, and the dependencies are among `known` and of lower ranks.
abbrev pub WellDeclared : (ResourceId → ℕ) → List ResourceId → Declared → Type 0
WellDeclared rank known d =
    IsNamed d.type × ((j : ResourceId) → Elem j d.deps → (rank j < rank d.id) × Elem j known)

of_byte-type_code : (type : ResourceType) → IsNamed type → of_byte (type_code type) ≡ type
unfolding of_byte type_code
of_byte-type_code static_mesh named = refl
of_byte-type_code texture named = refl
of_byte-type_code material named = refl
of_byte-type_code (ResourceType.unnamed n) named = elim named [ ]

-- The resource is registered, with these dependencies at least.
abbrev pub Carries : {Res : Type 0} → ResourceId → List ResourceId → SystemResources Res → Type 0
Carries id deps s =
    (m : ResourceMetadata _) × (entry id s ≡ some m)
    × ((j : ResourceId) → Elem j deps → Elem j m.dependencies)

module _ {Res : Type 0} (rank : ResourceId → ℕ) (known : List ResourceId) where
  -- Nothing was loaded yet.
  pub record IsNew (id : ResourceId) (m : ResourceMetadata Res) : Type 0 where
    pub waits : m.state ≡ not_loaded
    pub named : IsNamed m.type
    pub depends : (j : ResourceId) → Elem j m.dependencies → (rank j < rank id) × Elem j known

  abbrev pub AllNew : SystemResources Res → Type 0
  AllNew s = (id : ResourceId) (m : ResourceMetadata Res) → entry id s ≡ some m → IsNew id m

  IsNew-or_fresh :
      (id : ResourceId) (s : SystemResources Res)
      → AllNew s
      → IsNew id (get_value_or (entry id s) fresh)
  IsNew-or_fresh id s new = go (entry id s) (new id)
    where
      go :
          (o : Option (ResourceMetadata Res))
          → ((m : ResourceMetadata Res) → o ≡ some m → IsNew id m)
          → IsNew id (get_value_or o fresh)
      go none h = record { waits = refl; named = tt; depends = λ j e. elim e [ ] }
      go (some m) h = h m refl

  AllNew-modify :
      (id : ResourceId) (f : ResourceMetadata Res → ResourceMetadata Res) (s : SystemResources Res)
      → AllNew s
      → IsNew id (f (get_value_or (entry id s) fresh))
      → AllNew (modify id f s)
  AllNew-modify id f s new h j m found = elim (Bool-cases (id == j)) [
    | inl same ↦
        let now : some (f (get_value_or (entry id s) fresh)) ≡ some m =
          rw (entry-modify id j f s, same) at found in
        rw (← some-injective _ m now, ← (==_iff id j).0 same) h
    | inr other ↦ new j m (rw (entry-modify id j f s, other) at found)
  ]

  -- What the loops of the start leave.
  pub record Started (s : SystemResources Res) (ds : List Declared) (s' : SystemResources Res)
      : Type 0 where
    pub all_new : AllNew s'
    pub kept : (id : ResourceId) (deps : List ResourceId) → Carries id deps s → Carries id deps s'
    pub there : (d : Declared) → Elem d ds → Carries d.id d.deps s'
    pub same_factories : s'.factories ≡ s.factories

  Carries-modify :
      (id : ResourceId) (f : ResourceMetadata Res → ResourceMetadata Res) (s : SystemResources Res)
      (i : ResourceId) (deps : List ResourceId)
      → ((m : ResourceMetadata Res) (j : ResourceId)
          → Elem j m.dependencies
          → Elem j (f m).dependencies)
      → Carries i deps s
      → Carries i deps (modify id f s)
  Carries-modify id f s i deps grows (m, found, has) = elim (Bool-cases (id == i)) [
    | inl same ↦
        let here : entry id s ≡ some m = ap (λ x. entry x s) ((==_iff id i).0 same) ∙ found in
        (f m, rw (entry-modify id i f s, same, here) refl, λ j e. grows m j (has j e))
    | inr other ↦ (m, rw (entry-modify id i f s, other) found, has)
  ]

  register_node-written :
      (debug : Bool) (filename : Bytes) (d : Declared) (s : SystemResources Res)
      → AllNew s
      → WellDeclared rank known d
      → (s' : SystemResources Res) × (register_node debug filename (written d) s ≡ ok s')
        × Started s (d ∷ []) s'
  unfolding register_node modify
  register_node-written debug filename d s new (named, deps) =
      let change = λ (m : ResourceMetadata Res). record m {
        type = of_byte (type_code d.type);
        source = disk;
        state = not_loaded;
        source_filename = join (parent_path filename) d.source;
        dependencies = m.dependencies ++ d.deps;
      } in
      let before = IsNew-or_fresh d.id s new in
      (
        modify d.id change s,
        rw (register_node, rune_assert-true debug) refl,
        record {
          all_new = AllNew-modify d.id change s new (record {
            waits = refl;
            named = rw (of_byte-type_code d.type named) named;
            depends = λ j e. (elim (Elem-split (get_value_or (entry d.id s) fresh).dependencies e) [
              | inl old ↦ before.depends j old
              | inr added ↦ deps j added
            ]);
          });
          kept = λ i is. Carries-modify d.id change s i is (λ m j e. Elem-append_left d.deps e);
          there = λ x e. only (modify d.id change s) x e (
            change (get_value_or (entry d.id s) fresh),
            rw (entry-modify d.id d.id change s, (==_iff d.id d.id).1 refl) refl,
            λ j h. Elem-append_right (get_value_or (entry d.id s) fresh).dependencies h,
          );
          same_factories = refl;
        },
      )
    where
      only :
          (u : SystemResources Res) (x : Declared)
          → Elem x (d ∷ [])
          → Carries d.id d.deps u
          → Carries x.id x.deps u
      only u x (head e) r = rw e r
      only u x (tail e) r = elim e [ ]

  pub register_nodes :
      (debug : Bool) (filename : Bytes) (ds : List Declared) (s : SystemResources Res)
      → AllNew s
      → ((d : Declared) → Elem d ds → WellDeclared rank known d)
      → (s' : SystemResources Res) × (for_each (register_node debug filename) (map written ds) s
          ≡ ok s')
        × Started s ds s'
  register_nodes debug filename [] s new well = (
    s,
    refl,
    record { all_new = new; kept = λ i is h. h; there = λ j e. elim e [ ]; same_factories = refl },
  )
  register_nodes debug filename (d ∷ ds) s new well =
      let (s1, run1, started1) =
        register_node-written debug filename d s new (well d (head refl)) in
      let (s2, run2, started2) =
        register_nodes debug filename ds s1 started1.all_new (λ x e. well x (tail e)) in
      (
        s2,
        rw run1 run2,
        record {
          all_new = started2.all_new;
          kept = λ i is h. started2.kept i is (started1.kept i is h);
          there = λ x e. member s1 s2 started1 started2 x e;
          same_factories = started2.same_factories ∙ started1.same_factories;
        },
      )
    where
      member :
          (s1 s2 : SystemResources Res)
          → Started s (d ∷ []) s1
          → Started s1 ds s2
          → (x : Declared) → Elem x (d ∷ ds)
          → Carries x.id x.deps s2
      member s1 s2 started1 started2 x (head e) =
          started2.kept x.id x.deps (started1.there x (head e))
      member s1 s2 started1 started2 x (tail e) = started2.there x e

  pub register_bin_files-Started :
      (strid : Bytes → ℕ) (entries : List DirEntry) (s : SystemResources Res)
      → AllNew s
      → Started s [] (register_bin_files strid entries s)
  unfolding register_bin_files modify
  register_bin_files-Started strid [] s new = record {
    all_new = new;
    kept = λ i is h. h;
    there = λ j e. elim e [ ];
    same_factories = refl;
  }
  register_bin_files-Started strid (e ∷ es) s new =
      elim (Bool-cases (e.is_regular_file && equal (extension e.path) (codes ".bin"))) [
        | inr other ↦ rw (register_bin_files, other) (register_bin_files-Started strid es s new)
        | inl mesh ↦
            let id = strid (stem e.path) in
            let change = λ (m : ResourceMetadata Res). record m {
              type = static_mesh;
              source = disk;
              state = not_loaded;
              source_filename = e.path;
            } in
            let before = IsNew-or_fresh id s new in
            let rest = register_bin_files-Started strid es (modify id change s) (
              AllNew-modify id change s new
                (record { waits = refl; named = tt; depends = before.depends })) in
            rw (register_bin_files, mesh)
              (record {
                all_new = rest.all_new;
                kept = λ i is h. rest.kept i is (Carries-modify id change s i is (λ m j e'. e') h);
                there = λ j none_here. elim none_here [ ];
                same_factories = rest.same_factories;
              })
      ]
