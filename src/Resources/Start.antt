-- ===== src/Resources/Start.antt =====
-- From the start of the resource system over a registry file to the load of one of its resources.
mod Nodes
pub use Nodes.{Declared, written, WellDeclared, ids}
use mathlib.Core.Option.{some-injective}
use rune_old.Base.{
  rune_assert, rune_assert-true, is_some, ℕ, ◌<◌, ◌≡◌, refl, sym, ap, ◌∙◌, Bool, true, false, ◌&&◌,
  Option, none, some, List, [], ◌∷◌, ◌++◌, map, Bytes, codes, equal, Outcome, ok, ◌>>=◌, ◌>>◌,
  or_fault, for_each, arith, Bool-cases, inl, inr, ◌==◌, ==_iff, if◌then◌else◌, get_value_or, Elem,
  head, tail, Elem-split, Elem-map, All,
}
use rune_old.Maps.{find, upsert, assign, nat_eq}
use rune_old.Paths.{stem, extension, parent_path, join}
use rune_old.Resources.Types.{
  ResourceType, static_mesh, texture, material, type_code, of_byte, not_loaded, loading, loaded,
  disk, ResourceId, ResourceMetadata, fresh,
}
use rune_old.Resources.Growth.{entry, Registered, IsLoaded, Extends, Extends-on}
use rune_old.Resources.Invariant.{Works, Sound, entry-modify}
use rune_old.Resources.Handles.Stays.{Registered-modify}
use rune_old.Resources.Load.{Needs, itself, through, load_ends}
use rune_old.Resources.Typed.{nothing_registered}
use rune_old.Resources.{
  MetadataMap, FactoryFunc, SystemResources, RegistryNode, RegistryFile, DirEntry, modify,
  register_factory, register_from_disk, register_bin_files, register_node, load_registry_file,
  initialise, load,
}
use rune_old.Resources.Start.Nodes.{
  Declared, written, IsNamed, WellDeclared, ids, AllNew, Carries, register_nodes,
  register_bin_files-Started,
}

module _ {Res : Type 0} (factory : ResourceType → FactoryFunc Res) where
  -- The factories of the start.
  abbrev with_factories : SystemResources Res → SystemResources Res
  with_factories s = register_factory material (factory material) (
      register_factory texture (factory texture)
        (register_factory static_mesh (factory static_mesh) s))

  Works-named :
      (s : SystemResources Res) (type : ResourceType)
      → s.factories ≡ (with_factories nothing_registered).factories
      → ((t : ResourceType) (map : MetadataMap Res) (m : ResourceMetadata Res)
          → (r : Res) × (factory t map m ≡ ok (some r)))
      → IsNamed type
      → Works (type_code type) s
  unfolding register_factory find assign upsert type_code
  Works-named s static_mesh same total named =
      (factory static_mesh, ap (find 0) same, total static_mesh)
  Works-named s texture same total named = (factory texture, ap (find 1) same, total texture)
  Works-named s material same total named = (factory material, ap (find 2) same, total material)
  Works-named s (ResourceType.unnamed n) same total named = elim named [ ]

  Started-Sound :
      (rank : ResourceId → ℕ) (known : List ResourceId) (s : SystemResources Res)
      → AllNew rank known s
      → ((j : ResourceId) → Elem j known → Registered j s)
      → s.factories ≡ (with_factories nothing_registered).factories
      → ((t : ResourceType) (map : MetadataMap Res) (m : ResourceMetadata Res)
          → (r : Res) × (factory t map m ≡ ok (some r)))
      → Sound rank s
  Started-Sound rank known s new there same total = record {
    ranked = λ id m d found e.
        let (lower, is_known) = (new id m found).depends d e in (lower, there d is_known);
    settled = λ id m found under_way. (let e = (new id m found).waits in cc);
    closed = λ id m d found is_loaded e. (let e' = (new id m found).waits in cc);
    ready = λ id m found. Works-named s m.type same total (new id m found).named;
  }

  nothing_new :
      (rank : ResourceId → ℕ) (known : List ResourceId)
      → AllNew rank known (with_factories nothing_registered)
  unfolding register_factory find
  nothing_new rank known id m h = cc

-- The ids of what is there are there.
known_there :
    {Res : Type 0} (s : SystemResources Res) (ds : List Declared)
    → ((x : Declared) → Elem x ds → Carries x.id x.deps s)
    → (j : ResourceId) → Elem j (ids ds)
    → Registered j s
known_there s (d ∷ ds) there j (head e) =
    let (m, found, has) = there d (head refl) in (m, rw e found)
known_there s (d ∷ ds) there j (tail e) = known_there s ds (λ x h. there x (tail h)) j e
known_there s [] there j e = elim e [ ]

-- From the start to a load: where the data directory and the registry file are there, and the file
-- declares resources of the three types whose dependencies it declares too and that have ranks above
-- theirs, and where the factories return resources, the start returns, with whatever mesh files it
-- meets in the directory; the load of any resource of the file then returns, with fuel above its
-- rank, and the resource, the dependencies that the file declares for it, and all that these need,
-- directly or not, are loaded behind it.
pub initialise-load :
    {Res : Type 0} (debug : Bool) (strid : Bytes → ℕ) (exists : Bytes → Bool)
    (load_yaml : Bytes → Option RegistryFile) (factory : ResourceType → FactoryFunc Res)
    (files : List DirEntry) (rank : ResourceId → ℕ) (fuel : ℕ) (ds : List Declared) (d : Declared)
    → exists (codes "../../data") ≡ true
    → exists (codes "../../data/registry.yaml") ≡ true
    → load_yaml (codes "../../data/registry.yaml")
      ≡ some (record { resources = some (map written ds) })
    → ((x : Declared) → Elem x ds → WellDeclared rank (ids ds) x)
    → ((t : ResourceType) (map : MetadataMap Res) (m : ResourceMetadata Res)
        → (r : Res) × (factory t map m ≡ ok (some r)))
    → Elem d ds
    → rank d.id < fuel
    → (s : SystemResources Res) × (s' : SystemResources Res) × (initialise debug strid exists
          load_yaml factory files nothing_registered
        ≡ ok s)
      × (load debug fuel d.id s ≡ ok s')
      × IsLoaded d.id s'
      × ((j : ResourceId) → Elem j d.deps → IsLoaded j s')
      × ((j : ResourceId) → Needs s' d.id j → IsLoaded j s')
unfolding initialise load_registry_file
initialise-load debug strid exists load_yaml factory files rank fuel ds d data_there file_there read
      well total member enough =
    let known = ids ds in
    let s0 = with_factories factory nothing_registered in
    let new0 = nothing_new factory rank known in
    let (s1, run1, started1) =
      register_nodes rank known debug (codes "../../data/registry.yaml") ds s0 new0 well in
    let s2 = register_bin_files strid files s1 in
    let started2 = register_bin_files-Started rank known strid files s1 started1.all_new in
    let there = λ (x : Declared) (e : Elem x ds). started2.kept x.id x.deps (started1.there x e) in
    let sound =
      Started-Sound factory rank known s2 started2.all_new (λ j e. known_there s2 ds there j e)
        (started2.same_factories ∙ started1.same_factories) total in
    let (m, found, has) = there d member in
    let (s', run', _, ext, loaded_all) =
      load_ends debug rank fuel d.id s2 sound (m, found) enough in
    let (m', found', grows) = Extends-on s2 s' d.id m ext found in
    (
      s2,
      s',
      rw
          (
            initialise,
            data_there,
            file_there,
            rune_assert-true debug,
            load_registry_file,
            read,
            run1,
          )
          (rw (rune_assert-true debug) refl),
      run',
      loaded_all d.id itself,
      λ j e. loaded_all j (through found' (rw grows.dependencies_kept (has j e)) itself),
      loaded_all,
    )
