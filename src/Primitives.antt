-- ===== src/Primitives.antt =====
-- Rune/src/utility/primitives.cpp: the generated plane and cube. Floats are a parameter: a type `F`
-- with the operations that the code uses. The renderer's `create_static_mesh` is an empty mesh.
pub mod Bounds
mod Tests
use rune_old.Base.{ℕ, zero, suc, ◌+◌, ◌*◌, ◌%◌, ◌^◌, List, [], ◌∷◌, ◌++◌, map, replicate, Outcome}
use rune_old.Meshes.{
  StaticMesh, Buffers, set_positions, set_normals, set_tex_coords, set_triangles, apply,
}

pub record Floats (F : Type 0) : Type 0 where
  pub of_nat : ℕ → F
  pub half : F
  pub neg : F → F
  pub add : F → F → F
  pub mul : F → F → F
  pub div : F → F → F

pub record Vec3 (F : Type 0) : Type 0 where
  pub x : F
  pub y : F
  pub z : F

pub record Vec2 (F : Type 0) : Type 0 where
  pub x : F
  pub y : F

abbrev pub u32 : ℕ → ℕ
u32 n = n % 2 ^ 32

-- The locals of the first loops of `generate_plane`.
pub record Plane (F : Type 0) : Type 0 where
  pub position : Vec3 F
  pub tex_coord : Vec2 F
  pub positions : List (Vec3 F)
  pub normals : List (Vec3 F)
  pub tex_coords : List (Vec2 F)

-- Two triangles of the grid's cell at `x` and `y`.
unfoldable pub quad : ℕ → ℕ → ℕ → List ℕ
quad rx x y =
    let v0 = u32 (x + y * (rx + 1)) in
    let v1 = u32 (v0 + rx + 1) in
    let v2 = u32 (v0 + rx + 2) in let v3 = u32 (v0 + 1) in v0 ∷ v1 ∷ v2 ∷ v2 ∷ v3 ∷ v0 ∷ []

-- `n` cells of a row from `x`, and `n` rows from `y`.
unfoldable pub row_triangles : ℕ → ℕ → ℕ → ℕ → List ℕ
row_triangles rx y zero x = []
row_triangles rx y (suc n) x = quad rx x y ++ row_triangles rx y n (x + 1)

unfoldable pub plane_triangles : ℕ → ℕ → ℕ → List ℕ
plane_triangles rx zero y = []
plane_triangles rx (suc n) y = row_triangles rx y rx 0 ++ plane_triangles rx n (y + 1)

-- The triangles of the cube: two for each of the six faces of four vertices.
unfoldable pub cube_triangles : List ℕ
cube_triangles =
    0 ∷ 1 ∷ 2 ∷ 2 ∷ 3 ∷ 0 ∷ 4 ∷ 5 ∷ 6 ∷ 6 ∷ 7 ∷ 4 ∷ 8 ∷ 9 ∷ 10 ∷ 10 ∷ 11 ∷ 8 ∷ 12 ∷ 13 ∷ 14 ∷ 14
    ∷ 15 ∷ 12 ∷ 16 ∷ 17 ∷ 18 ∷ 18 ∷ 19 ∷ 16 ∷ 20 ∷ 21 ∷ 22 ∷ 22 ∷ 23 ∷ 20 ∷ []

-- The sign of a coordinate.
pub data Sign : Type 0 where
  plus minus : Sign

-- The corners of the cube, a face a line: top, bottom, south, north, east, west.
unfoldable pub cube_corners : List (Sign × Sign × Sign)
cube_corners =
    (minus, plus, minus)
    ∷ (plus, plus, minus)
    ∷ (plus, plus, plus)
    ∷ (minus, plus, plus)
    ∷ (minus, minus, plus)
    ∷ (plus, minus, plus)
    ∷ (plus, minus, minus)
    ∷ (minus, minus, minus)
    ∷ (minus, minus, minus)
    ∷ (plus, minus, minus)
    ∷ (plus, plus, minus)
    ∷ (minus, plus, minus)
    ∷ (plus, minus, plus)
    ∷ (minus, minus, plus)
    ∷ (minus, plus, plus)
    ∷ (plus, plus, plus)
    ∷ (plus, minus, minus)
    ∷ (plus, minus, plus)
    ∷ (plus, plus, plus)
    ∷ (plus, plus, minus)
    ∷ (minus, minus, plus)
    ∷ (minus, minus, minus)
    ∷ (minus, plus, minus)
    ∷ (minus, plus, plus)
    ∷ []

module _ {F : Type 0} (f : Floats F) where
  abbrev pub zero_f : F
  zero_f = f.of_nat 0

  abbrev pub one_f : F
  one_f = f.of_nat 1

  unfoldable pub of_sign : Sign → F
  of_sign plus = one_f
  of_sign minus = f.neg one_f

  -- The body of the inner loop, and `n` rounds of it.
  unfoldable pub plane_vertex : F → F → Plane F → Plane F
  plane_vertex increment u_increment p = record p {
    positions = p.positions ++ p.position ∷ [];
    normals = p.normals ++ record { x = zero_f; y = one_f; z = zero_f } ∷ [];
    tex_coords = p.tex_coords ++ p.tex_coord ∷ [];
    position = record (p.position) { x = f.add p.position.x increment };
    tex_coord = record (p.tex_coord) { x = f.add p.tex_coord.x u_increment };
  }

  unfoldable pub plane_row : F → F → ℕ → Plane F → Plane F
  plane_row increment u_increment zero p = p
  plane_row increment u_increment (suc n) p =
      plane_row increment u_increment n (plane_vertex increment u_increment p)

  unfoldable pub plane_rows : Vec2 F → Vec2 F → ℕ → ℕ → ℕ → Plane F → Plane F
  plane_rows size offset rx ry zero p = p
  plane_rows size offset rx ry (suc n) p =
      let row =
        plane_row (f.div size.x (f.of_nat rx)) (f.div one_f (f.of_nat rx)) (u32 (rx + 1)) p in
      plane_rows size offset rx ry n (record row {
        position = record (row.position) {
          x = offset.x;
          z = f.add row.position.z (f.div size.y (f.of_nat ry));
        };
        tex_coord = record (row.tex_coord) {
          y = f.add row.tex_coord.y (f.div one_f (f.of_nat ry));
        };
      })

  abbrev pub plane_begin : Vec2 F → Plane F
  plane_begin offset = record {
    position = record { x = offset.x; y = zero_f; z = offset.y };
    tex_coord = record { x = zero_f; y = zero_f };
    positions = [];
    normals = [];
    tex_coords = [];
  }

  unfoldable pub plane_vertices : Vec2 F → Vec2 F → ℕ → ℕ → Plane F
  plane_vertices size offset rx ry =
      plane_rows size offset rx ry (u32 (ry + 1)) (plane_begin offset)

  -- The half size is `size = 0.5f`, an assignment to the parameter `size`.
  unfoldable pub cube_positions : F → Vec3 F → List (Vec3 F)
  unfolding of_sign
  cube_positions size offset =
      map
        (λ (c : Sign × Sign × Sign). record {
          x = f.add offset.x (f.mul (of_sign c.0) f.half);
          y = f.add offset.y (f.mul (of_sign c.1) f.half);
          z = f.add offset.z (f.mul (of_sign c.2) f.half);
        })
        cube_corners

  unfoldable pub cube_normals : List (Vec3 F)
  cube_normals =
      let face = λ (x y z : F). replicate {A = Vec3 F} 4 (record { x = x; y = y; z = z }) in
      let o = one_f in
      let z = zero_f in
      let m = f.neg one_f in
      face z o z ++ (face z m z ++ (face z z m ++ (face z z o ++ (face o z z ++ face m z z))))

  abbrev pub new_mesh : StaticMesh (Vec3 F) (Vec2 F)
  new_mesh = record {
    positions = [];
    normals = [];
    tex_coords = [];
    triangles = [];
    positions_buffer = 0;
    other_attrib_buffer = 0;
    index_buffer = 0;
    index_count = 0;
  }

  -- The meshes, as they are handed to `apply`.
  unfoldable pub plane_mesh : Vec2 F → Vec2 F → ℕ → ℕ → StaticMesh (Vec3 F) (Vec2 F)
  unfolding set_positions set_normals set_tex_coords set_triangles
  plane_mesh size offset rx ry =
      let p = plane_vertices size offset rx ry in
      let m1 = set_positions p.positions new_mesh in
      let m2 = set_normals p.normals m1 in
      let m3 = set_tex_coords p.tex_coords m2 in set_triangles (plane_triangles rx ry 0) m3

  unfoldable pub cube_mesh : F → Vec3 F → StaticMesh (Vec3 F) (Vec2 F)
  unfolding set_positions set_normals set_tex_coords set_triangles
  cube_mesh size offset =
      let m1 = set_positions (cube_positions size offset) new_mesh in
      let m2 = set_normals cube_normals m1 in
      let m3 = set_tex_coords (replicate 24 (record { x = zero_f; y = zero_f })) m2 in
      set_triangles cube_triangles m3

  module _ {W : Type 0} (g : Buffers (Vec3 F) (Vec2 F) W) where
    unfoldable pub generate_plane :
        Vec2 F → Vec2 F → ℕ → ℕ → W → Outcome (StaticMesh (Vec3 F) (Vec2 F) × W)
    generate_plane size offset rx ry w = apply g (plane_mesh size offset rx ry) w

    unfoldable pub generate_cube : F → Vec3 F → W → Outcome (StaticMesh (Vec3 F) (Vec2 F) × W)
    generate_cube size offset w = apply g (cube_mesh size offset) w
