-- ===== src/Materials.antt =====
-- Rune/include/rune/rendering/material.hpp and Rune/src/rendering/material.cpp: `Material`, which binds
-- its first texture. The graphics library is a parameter over its state `W`; a resource that is a
-- texture is cast to it by a parameter.
use rune_old.Base.{ℕ, List, [], get_elem?, Outcome, ok, ◌>>=◌, or_fault, out_of_bounds, null_access}
use rune_old.Resources.{SystemResources}
use rune_old.Resources.Handles.{ResourceHandle, get}
use rune_old.Textures.{Texture}

pub record Material : Type 0 where
  pub textures : List ResourceHandle
  pub texture_set : ℕ

-- A texture and a sampler are bound at the binding 0 of a set.
pub record MaterialGfx (W : Type 0) : Type 0 where
  pub create_descriptor_set : W → ℕ × W
  pub create_sampler : W → ℕ × W
  pub bind_texture : ℕ → ℕ → ℕ → W → W

module _ {W : Type 0} (g : MaterialGfx W) where
  -- The constructor.
  unfoldable pub new_material : W → Material × W
  new_material w =
      let (set, w') = g.create_descriptor_set w in (record { textures = []; texture_set = set }, w')

  unfoldable pub set_textures :
      {Res : Type 0}
      → (Res → Texture)
      → SystemResources Res
      → List ResourceHandle
      → Material
      → W
      → Outcome (Material × W)
  set_textures as_texture resources textures m w = do
    let (sampler, w') = g.create_sampler w
    first ← or_fault (get_elem? textures 0) out_of_bounds
    pointer ← get first resources
    resource ← or_fault pointer null_access
    ok (
      record m { textures = textures },
      g.bind_texture m.texture_set (as_texture resource).handle sampler w',
    )
