-- ===== src/Factories/Tests.antt =====
-- An exported triangle, an image of two pixels, and a material with two textures.
use rune_old.Base.{
  ℕ, suc, ◌*◌, ◌%◌, ◌^◌, ◌≡◌, refl, true, some, [], ◌∷◌, arith, length, take, Bytes, codes, ok,
}
use rune_old.Factories.{Image, factory_load_static_mesh, factory_load_texture}
use rune_old.Factories.Loaded.{Creates, factory_load_texture-pixels}
use rune_old.Factories.Meshes.{factory_load_static_mesh-exported}
use rune_old.Maps.{nat_eq}
use rune_old.MeshFile.{Vec3, Vec2, export_static_mesh_optimised}
use rune_old.MeshFile.RoundTrip.{IsMesh}
use rune_old.Meshes.{Buffers, StaticMesh, apply}
use rune_old.Resources.Types.{material, loaded, disk, ResourceMetadata}
use rune_old.Textures.{Texture, TextureGfx}

abbrev point : rune_old.MeshFile.StaticMesh
point = record {
  positions = record { x = 1; y = 2; z = 3 } ∷ [];
  normals = record { x = 0; y = 0; z = 1 } ∷ [];
  tex_coords = record { x = 0; y = 0 } ∷ [];
  triangles = 0 ∷ 0 ∷ 0 ∷ [];
  submeshes = [];
}

point-IsMesh : IsMesh point
point-IsMesh = record {
  positions_fit = omega arith;
  normals_fit = omega arith;
  tex_coords_fit = omega arith;
  triangles_fit = omega arith;
  submeshes_fit = omega arith;
}

-- The world counts the buffers.
abbrev buffers : Buffers Vec3 Vec2 ℕ
buffers = record {
  destroy_buffer = λ b w. w;
  create_buffer = λ t n w. (w, suc w);
  map_buffer = λ b w. w;
  write = λ b c w. w;
  unmap_buffer = λ b w. w;
}

abbrev no_upload : StaticMesh Vec3 Vec2
no_upload = record {
  positions = [];
  normals = [];
  tex_coords = [];
  triangles = [];
  positions_buffer = 0;
  other_attrib_buffer = 0;
  index_buffer = 0;
  index_count = 0;
}

abbrev meta : ResourceMetadata ℕ
meta = record {
  type = material;
  state = loaded;
  source = disk;
  source_filename = codes "point.bin";
  resource = some 5;
  dependencies = [];
}

factory_load_static_mesh-exported_example :
    (m' : StaticMesh Vec3 Vec2) × (w' : ℕ) × (factory_load_static_mesh buffers
        (λ _. some (export_static_mesh_optimised point))
        no_upload
        meta
        1
      ≡ ok (m', w'))
    × (apply buffers
          (record no_upload {
            positions = point.positions;
            normals = point.normals;
            tex_coords = point.tex_coords;
            triangles = point.triangles;
          })
          1
        ≡ ok (m', w'))
    × (m'.index_count ≡ length point.triangles % 2 ^ 32)
factory_load_static_mesh-exported_example =
    factory_load_static_mesh-exported buffers (λ _. some (export_static_mesh_optimised point))
      no_upload meta point 1 point-IsMesh refl (omega arith)

abbrev texture_gfx : TextureGfx ℕ
texture_gfx = record {
  perform = λ c w. suc w;
  create_texture = λ width height w. (w, suc w);
  create_buffer = λ n w. (some w, suc w);
  map_buffer = λ b w. (true, w);
  create_command_list = λ w. (some w, suc w);
  submit = λ c w. (w, suc w);
}

texture_gfx-Creates : Creates texture_gfx
texture_gfx-Creates = record {
  buffer_of = λ n w. (w, suc w);
  buffers = λ n w. refl;
  list_of = λ w. (w, suc w);
  lists = λ w. refl;
}

abbrev pixels : Bytes
pixels = 1 ∷ 2 ∷ 3 ∷ 4 ∷ 5 ∷ 6 ∷ 7 ∷ 8 ∷ []

abbrev image : Image
image = record { width = 2; height = 1; pixels = some pixels }

factory_load_texture-pixels_example :
    (t : Texture) × (w' : ℕ) × (factory_load_texture texture_gfx (λ _. image) true meta 1
      ≡ ok (t, w'))
    × (t.width ≡ 2)
    × (t.height ≡ 1)
    × (t.depth ≡ 1)
    × (t.data_of ≡ take (2 * 1 * 4) pixels)
factory_load_texture-pixels_example =
    factory_load_texture-pixels texture_gfx (λ _. image) true meta 1 image pixels
      texture_gfx-Creates refl refl (omega arith) (omega arith)
