-- ===== src/Resources/Types.antt =====
-- Rune/include/rune/resources/types.hpp, resource.hpp, metadata.hpp and handle.hpp: resource types
-- and states, the metadata of a resource, and handles to it.
use rune_old.Base.{ℕ, zero, suc, Option, none, List, [], Bytes}
use rune_old.Maps.{nat_eq}

-- The enumeration stands on a byte, which may have a value that no enumerator names.
pub data ResourceType : Type 0 where
  static_mesh texture material : ResourceType
  unnamed : ℕ → ResourceType

unfoldable pub type_code : ResourceType → ℕ
type_code static_mesh = 0
type_code texture = 1
type_code material = 2
type_code (unnamed n) = n

-- `ResourceType(byte)`
unfoldable pub of_byte : ℕ → ResourceType
of_byte zero = static_mesh
of_byte (suc zero) = texture
of_byte (suc (suc zero)) = material
of_byte (suc (suc (suc n))) = unnamed (suc (suc (suc n)))

pub data ResourceState : Type 0 where
  not_loaded loading loaded : ResourceState

pub data ResourceSource : Type 0 where
  no_source disk app : ResourceSource

abbrev pub ResourceId : Type 0
ResourceId = ℕ

-- A resource is a value of a type `Res`; `none` is the null pointer. `sourceOffset` and `sourceSize`
-- are neither set nor read.
pub record ResourceMetadata (Res : Type 0) : Type 0 where
  pub type : ResourceType
  pub state : ResourceState
  pub source : ResourceSource
  pub source_filename : Bytes
  pub resource : Option Res
  pub dependencies : List ResourceId

-- What `ResourceMetadata{}` holds.
abbrev pub fresh : {Res : Type 0} → ResourceMetadata Res
fresh = record {
  type = static_mesh;
  state = not_loaded;
  source = no_source;
  source_filename = [];
  resource = none;
  dependencies = [];
}
