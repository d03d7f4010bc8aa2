-- ===== src/MeshFile/RoundTrip.antt =====
-- Reading back what was written.
use rune_old.Base.{
  ℕ, zero, suc, ◌+◌, ◌*◌, ◌/◌, ◌%◌, ◌^◌, ◌≤◌, ◌<◌, ◌≡◌, refl, ap, some, List, [], ◌∷◌, ◌++◌,
  append_assoc, arith, All, Bytes, length, take, ok,
}
use rune_old.MeshFile.{
  Vec3, Vec2, Submesh, StaticMesh, write_number, read_number, write_vec3, read_vec3, write_vec2,
  read_vec2, write_submesh, read_submesh, write_all, read_all, write_counted, read_counted,
  export_static_mesh_optimised, import_static_mesh_optimised,
}

-- How many values a number of some bytes has.
abbrev values : ℕ → ℕ
values zero = 1
values (suc width) = 256 * values width

read_number-write_number :
    (width n : ℕ) (rest : Bytes)
    → n < values width
    → read_number width (write_number width n ++ rest) ≡ (n, rest)
unfolding read_number write_number
read_number-write_number zero n rest h = let e : 0 ≡ n = omega arith in ap (λ (m : ℕ). (m, rest)) e
read_number-write_number (suc width) n rest h =
    let e : n % 256 + 256 * (n / 256) ≡ n = omega arith in
    rw (read_number-write_number width (n / 256) rest (omega arith)) (ap (λ (m : ℕ). (m, rest)) e)

-- One byte holds the remainder by 256.
read_byte : (n : ℕ) (rest : Bytes) → read_number 1 (write_number 1 n ++ rest) ≡ (n % 256, rest)
unfolding read_number write_number
read_byte n rest = let e : n % 256 + 256 * 0 ≡ n % 256 = omega arith in ap (λ (m : ℕ). (m, rest)) e

-- Four bytes hold the number.
abbrev pub IsWord : ℕ → Type 0
IsWord n = n < 2 ^ 32

word : (n : ℕ) (rest : Bytes) → IsWord n → read_number 4 (write_number 4 n ++ rest) ≡ (n, rest)
word n rest h = read_number-write_number 4 n rest (omega arith)

abbrev pub IsVec3 : Vec3 → Type 0
IsVec3 v = IsWord v.x × IsWord v.y × IsWord v.z

abbrev pub IsVec2 : Vec2 → Type 0
IsVec2 v = IsWord v.x × IsWord v.y

abbrev pub IsSubmesh : Submesh → Type 0
IsSubmesh m = IsWord m.index_offset × IsWord m.index_count

read_vec3-write_vec3 :
    (v : Vec3) (rest : Bytes) → IsVec3 v → read_vec3 (write_vec3 v ++ rest) ≡ (v, rest)
unfolding read_vec3 write_vec3
read_vec3-write_vec3 v rest h = rw (
  append_assoc (write_number 4 v.x) _ rest,
  append_assoc (write_number 4 v.y) _ rest,
  word v.x _ h.0,
  word v.y _ h.1,
  word v.z rest h.2,
)

read_vec2-write_vec2 :
    (v : Vec2) (rest : Bytes) → IsVec2 v → read_vec2 (write_vec2 v ++ rest) ≡ (v, rest)
unfolding read_vec2 write_vec2
read_vec2-write_vec2 v rest h =
    rw (append_assoc (write_number 4 v.x) _ rest, word v.x _ h.0, word v.y rest h.1)

read_submesh-write_submesh :
    (m : Submesh) (rest : Bytes) → IsSubmesh m → read_submesh (write_submesh m ++ rest) ≡ (m, rest)
unfolding read_submesh write_submesh
read_submesh-write_submesh m rest h = rw (
  append_assoc (write_number 4 m.index_offset) _ rest,
  word m.index_offset _ h.0,
  word m.index_count rest h.1,
)

module _ {A : Type 0} (P : A → Type 0) (write : A → Bytes) (read : Bytes → A × Bytes)
    (back : (x : A) (rest : Bytes) → P x → read (write x ++ rest) ≡ (x, rest)) where
  read_all-write_all :
      (xs : List A) (rest : Bytes)
      → All P xs
      → read_all read (length xs) (write_all write xs ++ rest) ≡ (xs, rest)
  unfolding read_all write_all
  read_all-write_all [] rest h = refl
  read_all-write_all (x ∷ xs) rest h = rw (
    append_assoc (write x) (write_all write xs) rest,
    back x (write_all write xs ++ rest) h.0,
    read_all-write_all xs rest h.1,
  )

  read_all-take :
      (n : ℕ) (xs : List A)
      → n ≤ length xs
      → All P xs
      → (read_all read n (write_all write xs)).0 ≡ take n xs
  unfolding read_all write_all
  read_all-take zero xs k h = refl
  read_all-take (suc n) [] k h = absurd (omega arith)
  read_all-take (suc n) (x ∷ xs) k h =
      rw (back x (write_all write xs) h.0) (ap (◌∷◌ x) (read_all-take n xs (omega arith) h.1))

  read_counted-write_counted :
      (xs : List A) (rest : Bytes)
      → length xs < 2 ^ 32
      → All P xs
      → read_counted read (write_counted write xs ++ rest) ≡ ok (xs, rest)
  unfolding read_counted write_counted
  read_counted-write_counted xs rest k h =
      rw
        (
          append_assoc (write_number 8 (length xs)) (write_all write xs) rest,
          read_number-write_number 8 (length xs) (write_all write xs ++ rest) (omega arith),
          read_all-write_all xs rest h,
        )
        (ground arith)

-- Numbers have four bytes, and each list has fewer than `2 ^ 32` elements.
pub record IsMesh (m : StaticMesh) : Type 0 where
  pub positions_fit : (length m.positions < 2 ^ 32) × All IsVec3 m.positions
  pub normals_fit : (length m.normals < 2 ^ 32) × All IsVec3 m.normals
  pub tex_coords_fit : (length m.tex_coords < 2 ^ 32) × All IsVec2 m.tex_coords
  pub triangles_fit : (length m.triangles < 2 ^ 32) × All IsWord m.triangles
  pub submeshes_fit : All IsSubmesh m.submeshes

pub import-export :
    (m out : StaticMesh)
    → IsMesh m
    → import_static_mesh_optimised (some (export_static_mesh_optimised m)) out
      ≡ ok (record m { submeshes = take (length m.submeshes % 256) m.submeshes })
unfolding import_static_mesh_optimised export_static_mesh_optimised
import-export m out fits =
    let count = length m.submeshes % 256 in
    let one : read_number 1
          (write_number 1 (length m.submeshes) ++ write_all write_submesh m.submeshes)
        ≡ (count, write_all write_submesh m.submeshes) =
      read_byte (length m.submeshes) _ in
    rw (
      read_counted-write_counted IsVec3 write_vec3 read_vec3 read_vec3-write_vec3 m.positions _
          fits.positions_fit.0 fits.positions_fit.1,
      read_counted-write_counted IsVec3 write_vec3 read_vec3 read_vec3-write_vec3 m.normals _
          fits.normals_fit.0 fits.normals_fit.1,
      read_counted-write_counted IsVec2 write_vec2 read_vec2 read_vec2-write_vec2 m.tex_coords _
          fits.tex_coords_fit.0 fits.tex_coords_fit.1,
      read_counted-write_counted IsWord (write_number 4) (read_number 4) word m.triangles _
          fits.triangles_fit.0 fits.triangles_fit.1,
      one,
      read_all-take IsSubmesh write_submesh read_submesh read_submesh-write_submesh count
          m.submeshes (omega arith) fits.submeshes_fit,
    )
