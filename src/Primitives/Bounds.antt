-- ===== src/Primitives/Bounds.antt =====
-- What the generated meshes upload: their vertices, and indices that refer to these.
use rune_old.Base.{
  ℕ, zero, suc, ◌+◌, ◌*◌, ◌^◌, ◌≤◌, ◌<◌, ◌≡◌, refl, List, [], ◌∷◌, ◌++◌, arith, length,
  length-append, All, take, drop, replicate, ◌/◌,
}
use rune_old.Meshes.{Buffers}
use rune_old.Meshes.Upload.{Uploads, apply-Uploads}
use rune_old.Primitives.{
  Floats, Vec3, Vec2, Plane, u32, quad, row_triangles, plane_triangles, cube_triangles,
  plane_vertex, plane_row, plane_rows, plane_vertices, cube_positions, cube_normals, generate_plane,
  generate_cube, plane_begin, plane_mesh, cube_mesh, cube_corners, of_sign, zero_f, one_f,
}

All-append : {A : Type 0} (P : A → Type 0) (xs ys : List A) → All P xs → All P ys → All P (xs ++ ys)
All-append P [] ys h k = k
All-append P (x ∷ xs) ys h k = (h.0, All-append P xs ys h.1 k)

mul_mono : (a b c : ℕ) → a ≤ b → a * c ≤ b * c
mul_mono a b zero h = omega arith
mul_mono a b (suc c) h = let k = mul_mono a b c h in omega arith

suc_mul : (n c k : ℕ) → k + c + n * c ≡ k + suc n * c
suc_mul n c k = omega arith

-- Every index is below `n`.
abbrev pub Below : ℕ → List ℕ → Type 0
Below n is = All (λ (i : ℕ). i < n) is

-- The three indices of each triangle are in the same group of four.
abbrev pub OnOneSide : List ℕ → Type 0
OnOneSide (a ∷ b ∷ c ∷ is) = (a / 4 ≡ b / 4) × (b / 4 ≡ c / 4) × OnOneSide is
OnOneSide [] = Unit
OnOneSide (a ∷ []) = ⊥
OnOneSide (a ∷ b ∷ []) = ⊥

cube_sides : OnOneSide cube_triangles
unfolding cube_triangles
cube_sides = omega arith

module _ (rx total : ℕ) (fits : total ≤ 2 ^ 32) where
  quad-Below : (x y : ℕ) → x < rx → (y + 2) * (rx + 1) ≤ total → Below total (quad rx x y)
  unfolding quad
  quad-Below x y h k =
      let e : (y + 2) * (rx + 1) ≡ y * (rx + 1) + 2 * rx + 2 = omega arith in omega arith

  row_triangles-Below :
      (y n x : ℕ) → x + n ≤ rx → (y + 2) * (rx + 1) ≤ total → Below total (row_triangles rx y n x)
  unfolding row_triangles
  row_triangles-Below y zero x h k = tt
  row_triangles-Below y (suc n) x h k =
      All-append _ (quad rx x y) _ (quad-Below x y (omega arith) k)
        (row_triangles-Below y n (x + 1) (omega arith) k)

  plane_triangles-Below :
      (n y ry : ℕ) → y + n ≡ ry → (ry + 1) * (rx + 1) ≤ total → Below total (plane_triangles rx n y)
  unfolding plane_triangles
  plane_triangles-Below zero y ry h k = tt
  plane_triangles-Below (suc n) y ry h k =
      let below = mul_mono (y + 2) (ry + 1) (rx + 1) (omega arith) in
      All-append _ (row_triangles rx y rx 0) _
        (row_triangles-Below y rx 0 (omega arith) (omega arith))
        (plane_triangles-Below n (y + 1) ry (omega arith) k)

length-row_triangles : (rx y n x : ℕ) → length (row_triangles rx y n x) ≡ 6 * n
unfolding row_triangles quad
length-row_triangles rx y zero x = refl
length-row_triangles rx y (suc n) x = omega (
  arith,
  length-row_triangles rx y n (x + 1),
  length-append (quad rx x y) (row_triangles rx y n (x + 1)),
)

length-plane_triangles : (rx n y : ℕ) → length (plane_triangles rx n y) ≡ 6 * (n * rx)
unfolding plane_triangles
length-plane_triangles rx zero y = omega arith
length-plane_triangles rx (suc n) y = omega (
  arith,
  length-row_triangles rx y rx 0,
  length-plane_triangles rx n (y + 1),
  length-append (row_triangles rx y rx 0) (plane_triangles rx n (y + 1)),
)

module _ {F : Type 0} (f : Floats F) where
  -- The three lists have the same length.
  abbrev pub Vertices : ℕ → Plane F → Type 0
  Vertices n p = (length p.positions ≡ n) × (length p.normals ≡ n) × (length p.tex_coords ≡ n)

  plane_row-Vertices :
      (i u : F) (n k : ℕ) (p : Plane F) → Vertices k p → Vertices (k + n) (plane_row f i u n p)
  unfolding plane_row plane_vertex
  plane_row-Vertices i u zero k p v = (omega arith, omega arith, omega arith)
  plane_row-Vertices i u (suc n) k p (a, b, c) =
      let (a', b', c') = plane_row-Vertices i u n (k + 1) (plane_vertex f i u p) (
        omega (arith, length-append p.positions (p.position ∷ [])),
        omega (arith, length-append p.normals (_ ∷ [])),
        omega (arith, length-append p.tex_coords (p.tex_coord ∷ [])),
      ) in
      (omega arith, omega arith, omega arith)

  plane_rows-Vertices :
      (size offset : Vec2 F) (rx ry n k : ℕ) (p : Plane F)
      → Vertices k p
      → Vertices (k + n * u32 (rx + 1)) (plane_rows f size offset rx ry n p)
  unfolding plane_rows
  plane_rows-Vertices size offset rx ry zero k p v = (omega arith, omega arith, omega arith)
  plane_rows-Vertices size offset rx ry (suc n) k p v = rw (← suc_mul n (u32 (rx + 1)) k) (
      plane_rows-Vertices size offset rx ry n (k + u32 (rx + 1)) _
        (plane_row-Vertices _ _ (u32 (rx + 1)) k p v))

  -- A plane has a vertex for each crossing of its grid, if their numbers fit.
  plane_vertices-Vertices :
      (size offset : Vec2 F) (rx ry : ℕ)
      → rx + 1 < 2 ^ 32
      → ry + 1 < 2 ^ 32
      → Vertices ((ry + 1) * (rx + 1)) (plane_vertices f size offset rx ry)
  unfolding plane_vertices
  plane_vertices-Vertices size offset rx ry h k =
      let ex : u32 (rx + 1) ≡ rx + 1 = omega arith in
      let ey : u32 (ry + 1) ≡ ry + 1 = omega arith in
      let product : 0 + u32 (ry + 1) * u32 (rx + 1) ≡ (ry + 1) * (rx + 1) =
        rw (ex, ey) (omega arith) in
      rw product at (
        plane_rows-Vertices size offset rx ry (u32 (ry + 1)) 0 (plane_begin f offset)
          (refl, refl, refl))

  -- The normal of a face, and the four vertices from index `k` on in the plane of that face.
  abbrev IsFace : List (Vec3 F) → List (Vec3 F) → (Vec3 F → F) → F → Vec3 F → ℕ → Type 0
  IsFace positions normals coordinate value normal k =
      All (λ (p : Vec3 F). coordinate p ≡ value) (take 4 (drop k positions))
      × (take 4 (drop k normals) ≡ replicate 4 normal)

  -- Four vertices for each side of a cube of the length that the code uses, around the offset: top,
  -- bottom, south, north, east and west. A normal points away from the cube.
  abbrev pub SixFaces : Vec3 F → List (Vec3 F) → List (Vec3 F) → Type 0
  SixFaces offset positions normals =
      let out = λ (x y z : F). let n : Vec3 F = record { x = x; y = y; z = z } in n in
      let o = one_f f in
      let z = zero_f f in
      let m = f.neg o in
      let up = λ (c : F). f.add c (f.mul o f.half) in
      let down = λ (c : F). f.add c (f.mul m f.half) in
      IsFace positions normals (λ p. p.y) (up offset.y) (out z o z) 0
      × IsFace positions normals (λ p. p.y) (down offset.y) (out z m z) 4
      × IsFace positions normals (λ p. p.z) (down offset.z) (out z z m) 8
      × IsFace positions normals (λ p. p.z) (up offset.z) (out z z o) 12
      × IsFace positions normals (λ p. p.x) (up offset.x) (out o z z) 16
      × IsFace positions normals (λ p. p.x) (down offset.x) (out m z z) 20

  module _ {W : Type 0} (g : Buffers (Vec3 F) (Vec2 F) W) where
    -- `generate_plane` returns, on a resolution whose crossings 32 bits can count. The mesh that it
    -- uploads has a position, a normal and a texture coordinate for each crossing, and six indices
    -- for each cell, each of them that of a vertex: the new buffers hold just these.
    pub generate_plane-Below :
        (size offset : Vec2 F) (rx ry : ℕ) (w : W)
        → rx + 1 < 2 ^ 32
        → ry + 1 < 2 ^ 32
        → (ry + 1) * (rx + 1) ≤ 2 ^ 32
        → (p : Plane F) × (triangles : List ℕ) × Uploads g
            (0 ∷ 0 ∷ 0 ∷ [])
            p.positions
            p.normals
            p.tex_coords
            triangles
            w
            (generate_plane f g size offset rx ry w)
          × Vertices ((ry + 1) * (rx + 1)) p
          × Below ((ry + 1) * (rx + 1)) triangles
          × (length triangles ≡ 6 * (ry * rx))
    unfolding generate_plane plane_mesh
    generate_plane-Below size offset rx ry w h k fits =
        let v = plane_vertices-Vertices size offset rx ry h k in
        (
          plane_vertices f size offset rx ry,
          plane_triangles rx ry 0,
          apply-Uploads g (plane_mesh f size offset rx ry) w (omega (arith, v.1, v.2)),
          v,
          plane_triangles-Below rx ((ry + 1) * (rx + 1)) fits ry 0 ry (omega arith) (omega arith),
          length-plane_triangles rx ry 0,
        )

    -- `generate_cube` returns. The mesh that it uploads has 24 positions, normals and texture
    -- coordinates, four for each side of a cube around the offset, with the normal of that side, and
    -- 36 indices, each of them below 24, and the three of a triangle on one side: the new buffers hold
    -- just these. The size that is asked for makes no difference.
    pub generate_cube-Below :
        (size other : F) (offset : Vec3 F) (w : W)
        → (positions normals : List (Vec3 F)) × (tex_coords : List (Vec2 F)) × (triangles : List ℕ)
          × Uploads g
              (0 ∷ 0 ∷ 0 ∷ [])
              positions
              normals
              tex_coords
              triangles
              w
              (generate_cube f g size offset w)
          × (length positions ≡ 24)
          × (length normals ≡ 24)
          × (length tex_coords ≡ 24)
          × SixFaces offset positions normals
          × (length triangles ≡ 36)
          × Below 24 triangles
          × OnOneSide triangles
          × (generate_cube f g size offset w ≡ generate_cube f g other offset w)
    unfolding generate_cube cube_mesh cube_positions cube_normals cube_triangles cube_corners
        of_sign
    generate_cube-Below size other offset w = (
      cube_positions f size offset,
      cube_normals f,
      _,
      cube_triangles,
      apply-Uploads g (cube_mesh f size offset) w (omega arith),
      refl,
      refl,
      refl,
      (
        ((refl, (refl, (refl, (refl, tt)))), refl),
        ((refl, (refl, (refl, (refl, tt)))), refl),
        ((refl, (refl, (refl, (refl, tt)))), refl),
        ((refl, (refl, (refl, (refl, tt)))), refl),
        ((refl, (refl, (refl, (refl, tt)))), refl),
        ((refl, (refl, (refl, (refl, tt)))), refl),
      ),
      refl,
      omega arith,
      cube_sides,
      refl,
    )
