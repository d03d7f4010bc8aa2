-- ===== src/Primitives/Tests.antt =====
-- A plane and a cube over natural numbers in place of floats.
use rune_old.Base.{List, [], ◌∷◌, ◌≡◌, ℕ, ◌+◌, ◌*◌, ◌/◌, length, arith}
use rune_old.Meshes.{Buffers}
use rune_old.Primitives.{Floats, Vec3, Vec2, Plane, generate_plane, generate_cube}
use rune_old.Primitives.Bounds.{
  Below, Vertices, SixFaces, OnOneSide, generate_plane-Below, generate_cube-Below,
}
use rune_old.Meshes.Upload.{Uploads}

abbrev floats : Floats ℕ
floats = record {
  of_nat = λ n. n;
  half = 1;
  neg = λ a. a;
  add = λ a b. a + b;
  mul = λ a b. a * b;
  div = λ a b. a / b;
}

-- The state counts the buffers.
abbrev buffers : Buffers (Vec3 ℕ) (Vec2 ℕ) ℕ
buffers = record {
  destroy_buffer = λ b w. w;
  create_buffer = λ type size w. (w, w + 1);
  map_buffer = λ b w. w;
  write = λ b cells w. w;
  unmap_buffer = λ b w. w;
}

abbrev size : Vec2 ℕ
size = record { x = 6; y = 4 }

abbrev origin : Vec3 ℕ
origin = record { x = 0; y = 0; z = 0 }

generate_plane-Below_example :
    (p : Plane ℕ) × (triangles : List ℕ) × Uploads buffers
      (0 ∷ 0 ∷ 0 ∷ [])
      p.positions
      p.normals
      p.tex_coords
      triangles
      0
      (generate_plane floats buffers size size 3 2 0)
    × Vertices floats 12 p
    × Below 12 triangles
    × (length triangles ≡ 6 * (2 * 3))
generate_plane-Below_example =
    generate_plane-Below floats buffers size size 3 2 0 (omega arith) (omega arith) (omega arith)

generate_cube-Below_example :
    (positions normals : List (Vec3 ℕ)) × (tex_coords : List (Vec2 ℕ)) × (triangles : List ℕ)
    × Uploads buffers
        (0 ∷ 0 ∷ 0 ∷ [])
        positions
        normals
        tex_coords
        triangles
        0
        (generate_cube floats buffers 2 origin 0)
    × (length positions ≡ 24)
    × (length normals ≡ 24)
    × (length tex_coords ≡ 24)
    × SixFaces floats origin positions normals
    × (length triangles ≡ 36)
    × Below 24 triangles
    × OnOneSide triangles
    × (generate_cube floats buffers 2 origin 0 ≡ generate_cube floats buffers 7 origin 0)
generate_cube-Below_example = generate_cube-Below floats buffers 2 7 origin 0
