-- ===== src/Factories.antt =====
-- Rune/src/resources/factory_funcs.cpp: the functions that load a resource of each type. The file
-- system, the image library, the YAML library and the graphics library are parameters.
pub mod Meshes
pub mod Loaded
mod Tests
use rune_old.Base.{
  ℕ, zero, suc, ◌*◌, Bool, true, false, Option, none, some, is_some, List, [], ◌∷◌, ◌++◌,
  if◌then◌else◌, leb, length, take, Bytes, Outcome, ok, fault, ◌>>=◌, ◌>>◌, or_fault, rune_assert,
  null_access, out_of_bounds, exception_thrown,
}
use rune_old.Materials.{Material, MaterialGfx, new_material, set_textures}
use rune_old.MeshFile.{Vec3, Vec2, import_static_mesh_optimised}
use rune_old.Meshes.{
  Buffers, StaticMesh, set_positions, set_normals, set_tex_coords, set_triangles, apply,
}
use rune_old.RawMesh.{no_mesh}
use rune_old.Resources.{SystemResources}
use rune_old.Resources.Handles.{ResourceHandle, get_ptr}
use rune_old.Resources.Types.{ResourceMetadata}
use rune_old.Textures.{Texture, TextureGfx, new_texture, set_dimensions, set_data}

-- What `stbi_load` returns for four components: the size, and the bytes unless the pointer is null.
pub record Image : Type 0 where
  pub width : ℕ
  pub height : ℕ
  pub pixels : Option Bytes

-- The first `n` bytes behind a pointer.
abbrev pub bytes_behind : Option Bytes → ℕ → Outcome Bytes
bytes_behind none zero = ok []
bytes_behind none (suc n) = fault null_access
bytes_behind (some bytes) n =
    if leb n (length bytes) then ok (take n bytes) else fault out_of_bounds

-- The nodes of a material's file; an id is `none` if it cannot be converted.
pub record MaterialNode : Type 0 where
  pub textures : List (Option ℕ)

pub record MaterialFile : Type 0 where
  pub material : Option MaterialNode

module _ {Res : Type 0} where
  unfoldable pub factory_load_static_mesh :
      {W : Type 0}
      → Buffers Vec3 Vec2 W
      → (Bytes → Option Bytes)
      → StaticMesh Vec3 Vec2
      → ResourceMetadata Res
      → W
      → Outcome (StaticMesh Vec3 Vec2 × W)
  factory_load_static_mesh g read_file new_mesh metadata w = do
    loaded ← import_static_mesh_optimised (read_file metadata.source_filename) no_mesh
    let m1 = set_positions loaded.positions new_mesh
    let m2 = set_normals loaded.normals m1
    let m3 = set_tex_coords loaded.tex_coords m2
    let m4 = set_triangles loaded.triangles m3
    apply g m4 w

  unfoldable pub factory_load_texture :
      {W : Type 0}
      → TextureGfx W
      → (Bytes → Image)
      → Bool
      → ResourceMetadata Res
      → W
      → Outcome (Texture × W)
  factory_load_texture g stbi_load debug metadata w = do
    let image = stbi_load metadata.source_filename
    bytes ← bytes_behind image.pixels (image.width * image.height * 4)
    set_data g debug bytes (set_dimensions image.width image.height 1 new_texture) w

  -- The loop over the nodes of the textures.
  unfoldable pub texture_handles :
      SystemResources Res → List (Option ℕ) → List ResourceHandle → Outcome (List ResourceHandle)
  texture_handles resources [] hs = ok hs
  texture_handles resources (n ∷ ns) hs = do
    id ← or_fault n exception_thrown
    h ← get_ptr id resources
    texture_handles resources ns (hs ++ h ∷ [])

  -- `none` is a file that the YAML library cannot load.
  unfoldable pub factory_load_material :
      {W : Type 0}
      → MaterialGfx W
      → (Bytes → Option MaterialFile)
      → (Res → Texture)
      → Bool
      → SystemResources Res
      → ResourceMetadata Res
      → W
      → Outcome (Material × W)
  factory_load_material g load_file as_texture debug resources metadata w = do
    file ← or_fault (load_file metadata.source_filename) exception_thrown
    rune_assert debug (is_some file.material)
    node ← or_fault file.material exception_thrown
    let (material, w') = new_material g w
    handles ← texture_handles resources node.textures []
    set_textures g as_texture resources handles material w'
