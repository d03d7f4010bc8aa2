-- ===== src/Factories/Meshes.antt =====
-- From the exported file to the buffers: the asset library's writer and reader, the factory and the
-- upload.
use rune_old.Base.{◌%◌, ◌^◌, ◌≤◌, ◌≡◌, some, length, Bytes, Option, ok}
use rune_old.Factories.{factory_load_static_mesh}
use rune_old.MeshFile.{Vec3, Vec2, export_static_mesh_optimised, import_static_mesh_optimised}
use rune_old.MeshFile.RoundTrip.{IsMesh, import-export}
use rune_old.Meshes.{
  Buffers, StaticMesh, set_positions, set_normals, set_tex_coords, set_triangles, apply,
}
use rune_old.Meshes.Upload.{apply-interleave}
use rune_old.RawMesh.{no_mesh}
use rune_old.Resources.Types.{ResourceMetadata}

-- A mesh that the asset library has exported is loaded by the factory: if its numbers fit and it has
-- a texture coordinate for each normal, the factory returns, does what the upload of the mesh's own
-- positions, normals, texture coordinates and triangles does, and counts the triangles' indices.
pub factory_load_static_mesh-exported :
    {Res W : Type 0} (g : Buffers Vec3 Vec2 W) (read_file : Bytes → Option Bytes)
    (new_mesh : StaticMesh Vec3 Vec2) (metadata : ResourceMetadata Res)
    (m : rune_old.MeshFile.StaticMesh) (w : W)
    → IsMesh m
    → read_file metadata.source_filename ≡ some (export_static_mesh_optimised m)
    → length m.normals ≤ length m.tex_coords
    → (m' : StaticMesh Vec3 Vec2) × (w' : W) × (factory_load_static_mesh g read_file new_mesh
          metadata w
        ≡ ok (m', w'))
      × (apply g
            (record new_mesh {
              positions = m.positions;
              normals = m.normals;
              tex_coords = m.tex_coords;
              triangles = m.triangles;
            })
            w
          ≡ ok (m', w'))
      × (m'.index_count ≡ length m.triangles % 2 ^ 32)
unfolding factory_load_static_mesh set_positions set_normals set_tex_coords set_triangles
factory_load_static_mesh-exported g read_file new_mesh metadata m w fits written enough =
    let held = record new_mesh {
      positions = m.positions;
      normals = m.normals;
      tex_coords = m.tex_coords;
      triangles = m.triangles;
    } in
    let (m', w', uploads, count, _, _, _, _) = apply-interleave g held w enough in
    (m', w', rw (written, import-export m no_mesh fits) uploads, uploads, count)
