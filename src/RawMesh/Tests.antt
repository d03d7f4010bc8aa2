-- ===== src/RawMesh/Tests.antt =====
-- A scene of two meshes, the second of which has no normals, in a root with a child.
use rune_old.Base.{◌≡◌, refl, true, false, none, some, [], ◌∷◌, arith, map, codes, ok}
use rune_old.RawMesh.{AiMesh, node, none_left, child, AiScene, zero3, import_static_mesh_raw}
use rune_old.RawMesh.Process.{IsTriangleMesh, imported}
use rune_old.RawMesh.Import.{nothing, pick, import_static_mesh_raw-Picks}

abbrev corner : AiMesh
corner = record {
  vertices = zero3 ∷ record { x = 1; y = 0; z = 0 } ∷ record { x = 0; y = 1; z = 0 } ∷ [];
  normals = some (zero3 ∷ zero3 ∷ zero3 ∷ []);
  tex_coords = none;
  faces = (0 ∷ 1 ∷ 2 ∷ []) ∷ [];
}

abbrev both_sides : AiMesh
both_sides = record {
  vertices = zero3 ∷ record { x = 7; y = 0; z = 0 } ∷ record { x = 0; y = 7; z = 0 } ∷ [];
  normals = none;
  tex_coords = none;
  faces = (0 ∷ 1 ∷ 2 ∷ []) ∷ (2 ∷ 1 ∷ 0 ∷ []) ∷ [];
}

abbrev scene : AiScene
scene = record {
  root = node (1 ∷ []) (child (node (0 ∷ 1 ∷ []) none_left) none_left);
  meshes = corner ∷ both_sides ∷ [];
}

corner-IsTriangleMesh : IsTriangleMesh corner
corner-IsTriangleMesh = record {
  same_normals = refl;
  same_tex_coords = refl;
  indices_fit = omega arith;
  triangulated = (refl, tt);
}

both_sides-IsTriangleMesh : IsTriangleMesh both_sides
both_sides-IsTriangleMesh = record {
  same_normals = refl;
  same_tex_coords = refl;
  indices_fit = omega arith;
  triangulated = (refl, (refl, tt));
}

import_static_mesh_raw-Picks_example :
    import_static_mesh_raw (λ _. true) (λ _ _. some scene) (codes "rock.obj") false
    ≡ ok (map imported (both_sides ∷ corner ∷ both_sides ∷ []))
import_static_mesh_raw-Picks_example =
    import_static_mesh_raw-Picks (λ _. true) (λ _ _. some scene) (codes "rock.obj") false scene
      (both_sides ∷ corner ∷ both_sides ∷ []) refl refl
      (pick refl both_sides-IsTriangleMesh
        (pick refl corner-IsTriangleMesh (pick refl both_sides-IsTriangleMesh nothing)))
