-- ===== src/Resources/Handles.antt =====
-- Rune/include/rune/resources/handle.hpp: `ResourceHandle`, a pointer to the metadata of a resource.
-- The pointer is the id of the entry; `none` is the null pointer.
pub mod Stays
use rune_old.Base.{
  Bool, true, false, Option, none, some, Outcome, ok, fault, ◌>>=◌, or_fault, null_access,
}
use rune_old.Maps.{find, nat_eq}
use rune_old.Resources.Types.{ResourceState, loaded, ResourceId, ResourceMetadata}
use rune_old.Resources.{SystemResources, get_metadata}

abbrev pub ResourceHandle : Type 0
ResourceHandle = Option ResourceId

unfoldable pub is_valid : ResourceHandle → Bool
is_valid none = false
is_valid (some _) = true

abbrev pub is_loaded_state : ResourceState → Bool
is_loaded_state loaded = true
is_loaded_state _ = false

module _ {Res : Type 0} where
  unfoldable pub get_ptr : ResourceId → SystemResources Res → Outcome ResourceHandle
  get_ptr id s = do _ ← get_metadata id s; ok (some id)

  -- A handle whose entry is gone would dangle.
  deref : ResourceHandle → SystemResources Res → Outcome (ResourceMetadata Res)
  deref none s = fault null_access
  deref (some id) s = or_fault (find id s.metadata_map) null_access

  unfoldable pub is_loaded : ResourceHandle → SystemResources Res → Outcome Bool
  unfolding deref
  is_loaded none s = ok false
  is_loaded (some id) s = do m ← deref (some id) s; ok (is_loaded_state m.state)

  unfoldable pub get : ResourceHandle → SystemResources Res → Outcome (Option Res)
  unfolding deref
  get h s = do m ← deref h s; ok m.resource
