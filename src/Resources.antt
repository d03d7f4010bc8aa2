-- ===== src/Resources.antt =====
-- Rune/include/rune/resources/system_resources.hpp and Rune/src/resources/system_manager.cpp:
-- `SystemResources`, the table of the resources' metadata and of the functions that load each type.
-- A reference to an entry of the table is its id: entries are never removed and their addresses do
-- not change. The YAML library, the file system and `std::hash` are parameters.
pub mod Types
pub mod Handles
pub mod Growth
pub mod Invariant
pub mod Load
pub mod Cycle
pub mod Typed
pub mod Start
mod Tests
use rune_old.Base.{
  rune_assert, is_some, ℕ, zero, suc, Bool, true, false, not, ◌&&◌, ◌||◌, Option, none, some, List,
  [], ◌∷◌, ◌++◌, if◌then◌else◌, Bytes, equal, codes, Outcome, ok, fault, ◌>>=◌, ◌>>◌, require,
  or_fault, for_each, missing_key, assertion_failed, exception_thrown, out_of_fuel, get_value_or,
}
use rune_old.Maps.{find, upsert, assign, nat_eq}
use rune_old.Paths.{stem, extension, parent_path, join}
use rune_old.Resources.Types.{
  ResourceType, static_mesh, texture, material, type_code, of_byte, ResourceState, not_loaded,
  loading, loaded, ResourceSource, disk, app, ResourceId, ResourceMetadata, fresh,
}

abbrev pub MetadataMap : Type 0 → Type 0
MetadataMap Res = List (ResourceId × ResourceMetadata Res)

-- A `FactoryFunc` reads the table, of which it may keep handles, and the metadata. It returns a
-- pointer, which may be null, or throws.
abbrev pub FactoryFunc : Type 0 → Type 0
FactoryFunc Res = MetadataMap Res → ResourceMetadata Res → Outcome (Option Res)

-- `none` is the empty `std::function`. The keys are the values of `ResourceType`.
-- `m_loadedResourcesSet` is not used.
pub record SystemResources (Res : Type 0) : Type 0 where
  pub factories : List (ℕ × Option (FactoryFunc Res))
  pub metadata_map : MetadataMap Res

-- A resource of the registry file, as the YAML library reads it: a part is `none` where it is missing
-- or cannot be converted. `deps` is `none` where it is missing, and the file is one that cannot be
-- loaded where a dependency cannot be converted: both throw.
pub record RegistryNode : Type 0 where
  pub id : Option ℕ
  pub type : Option ℕ
  pub source : Option Bytes
  pub deps : Option (List ResourceId)

-- What `YAML::LoadFile` returns, if it does not throw: the nodes under `resources`, if that is there.
pub record RegistryFile : Type 0 where
  pub resources : Option (List RegistryNode)

-- A file that the walk through the data directory meets.
pub record DirEntry : Type 0 where
  pub path : Bytes
  pub is_regular_file : Bool

abbrev is_not_loaded : ResourceState → Bool
is_not_loaded not_loaded = true
is_not_loaded _ = false

module _ {Res : Type 0} where
  unfoldable pub register_factory :
      ResourceType → FactoryFunc Res → SystemResources Res → SystemResources Res
  register_factory type f s = record s { factories = assign (type_code type) (some f) s.factories }

  -- `m_metadataMap.at(id)`
  unfoldable pub get_metadata : ResourceId → SystemResources Res → Outcome (ResourceMetadata Res)
  get_metadata id s = or_fault (find id s.metadata_map) missing_key

  -- Assignments to members of `m_metadataMap[id]`, which makes the entry if it is missing.
  unfoldable pub modify :
      ResourceId
      → (ResourceMetadata Res → ResourceMetadata Res)
      → SystemResources Res
      → SystemResources Res
  modify id f s = record s { metadata_map = upsert id fresh f s.metadata_map }

  module _ (strid : Bytes → ℕ) where
    unfoldable pub register_from_disk : Bytes → SystemResources Res → SystemResources Res
    register_from_disk filename = modify (strid (stem filename)) λ m. record m {
      type = static_mesh;
      source = disk;
      state = not_loaded;
      source_filename = filename;
    }

    -- The loop over the data directory.
    unfoldable pub register_bin_files : List DirEntry → SystemResources Res → SystemResources Res
    unfolding register_from_disk
    register_bin_files [] s = s
    register_bin_files (e ∷ es) s = register_bin_files es (
        if e.is_regular_file && equal (extension e.path) (codes ".bin")
        then register_from_disk e.path s
        else s)

  unfoldable pub add_resource : ResourceId → Res → SystemResources Res → SystemResources Res
  add_resource id r = modify id λ m. record m { state = loaded; source = app; resource = some r }

  unfoldable pub unload : ResourceId → SystemResources Res → Outcome (SystemResources Res)
  unfolding get_metadata modify
  unload id s = do
    _ ← get_metadata id s
    ok (modify id (λ m. record m { state = not_loaded; resource = none }) s)

  -- `m_factoryFuncMap[resourceType]` makes an entry that is missing.
  unfoldable pub get_factory :
      ResourceType → SystemResources Res → Option (FactoryFunc Res) × SystemResources Res
  get_factory type s = (
    elim (find (type_code type) s.factories) [ some f ↦ f | none ↦ none ],
    record s { factories = upsert (type_code type) none (λ f. f) s.factories },
  )

  module _ (debug : Bool) where
    -- The part of `load` behind the loop over the dependencies.
    unfoldable pub load_self : ResourceId → SystemResources Res → Outcome (SystemResources Res)
    load_self id s = do
      m ← get_metadata id s
      let found = get_factory m.type s
      elim found.0 [
        | none ↦ ok found.1
        | some factory ↦ do
          let s' = modify id (λ m. record m { state = loading }) found.1
          m' ← get_metadata id s'
          r ← factory s'.metadata_map m'
          rune_assert debug (is_some r)
          ok (modify id (λ m. record m { resource = r; state = loaded }) s')
      ]

    -- Each call goes one level of dependencies down: the fuel bounds how deep they may be.
    unfoldable pub load : ℕ → ResourceId → SystemResources Res → Outcome (SystemResources Res)
    load zero id s = fault out_of_fuel
    load (suc fuel) id s = get_metadata id s >>= λ m. elim (is_not_loaded m.state) [
      | false ↦ ok s
      | true ↦ for_each (load fuel) m.dependencies s >>= load_self id
    ]

    -- The body of the loop of `load_registry_file`. A conversion that fails throws.
    unfoldable pub register_node :
        Bytes → RegistryNode → SystemResources Res → Outcome (SystemResources Res)
    register_node filename n s = do
      rune_assert debug (is_some n.id)
      id ← or_fault n.id exception_thrown
      type ← or_fault n.type exception_thrown
      source ← or_fault n.source exception_thrown
      ok (
          modify id
            (λ m. record m {
              type = of_byte type;
              source = disk;
              state = not_loaded;
              source_filename = join (parent_path filename) source;
              dependencies = m.dependencies ++ get_value_or n.deps [];
            })
            s)

    -- Where `resources` is missing, there is nothing to walk through.
    unfoldable pub load_registry_file :
        (Bytes → Option RegistryFile) → Bytes → SystemResources Res → Outcome (SystemResources Res)
    load_registry_file load_yaml filename s = do
      file ← or_fault (load_yaml filename) exception_thrown
      rune_assert debug (is_some file.resources)
      for_each (register_node filename) (get_value_or file.resources []) s

    -- The three factories of factory_funcs.cpp, the walk through the data directory and the files
    -- are parameters.
    unfoldable pub initialise :
        (Bytes → ℕ)
        → (Bytes → Bool)
        → (Bytes → Option RegistryFile)
        → (ResourceType → FactoryFunc Res)
        → List DirEntry
        → SystemResources Res
        → Outcome (SystemResources Res)
    initialise strid exists load_yaml factory entries s = do
      let with_meshes = register_factory static_mesh (factory static_mesh) s
      let with_textures = register_factory texture (factory texture) with_meshes
      let with_materials = register_factory material (factory material) with_textures
      rune_assert debug (exists (codes "../../data"))
      rune_assert debug (exists (codes "../../data/registry.yaml"))
      s' ← load_registry_file load_yaml (codes "../../data/registry.yaml") with_materials
      ok (register_bin_files strid entries s')
