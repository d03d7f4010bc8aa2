-- ===== src/MeshFile/Tests.antt =====
-- A mesh of one triangle.
use rune_old.Base.{[], ◌∷◌}
use rune_old.MeshFile.{StaticMesh}

abbrev triangle : StaticMesh
triangle = record {
  positions =
      record { x = 0; y = 0; z = 0 }
      ∷ record { x = 1065353216; y = 0; z = 0 }
      ∷ record { x = 0; y = 1065353216; z = 0 }
      ∷ [];
  normals = [];
  tex_coords = record { x = 0; y = 1 } ∷ [];
  triangles = 0 ∷ 1 ∷ 2 ∷ [];
  submeshes = record { index_offset = 0; index_count = 3 } ∷ [];
}

abbrev empty_mesh : StaticMesh
empty_mesh = record {
  positions = [];
  normals = [];
  tex_coords = [];
  triangles = [];
  submeshes = [];
}
