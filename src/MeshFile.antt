-- ===== src/MeshFile.antt =====
-- AssetLib/include/rune/assetlib/mesh/static_mesh.hpp and AssetLib/src/mesh/static_mesh.cpp: the
-- binary file of a mesh, its writer and its reader. A `float` is its four bytes as a number; numbers
-- stand in the file with the lowest byte first. The import of raw meshes through Assimp is left out.
pub mod RoundTrip
mod Tests
use rune_old.Base.{
  ℕ, zero, suc, ◌+◌, ◌*◌, ◌/◌, ◌%◌, ◌^◌, Option, none, some, List, [], ◌∷◌, ◌++◌, ltb, Bytes,
  length, Outcome, ok, ◌>>=◌, ◌>>◌, require, out_of_fuel,
}

pub record Vec3 : Type 0 where
  pub x : ℕ
  pub y : ℕ
  pub z : ℕ

pub record Vec2 : Type 0 where
  pub x : ℕ
  pub y : ℕ

pub record Submesh : Type 0 where
  pub index_offset : ℕ
  pub index_count : ℕ

pub record StaticMesh : Type 0 where
  pub positions : List Vec3
  pub normals : List Vec3
  pub tex_coords : List Vec2
  pub triangles : List ℕ
  pub submeshes : List Submesh

-- `WRITE` of a number of `width` bytes: what does not fit is cut off.
unfoldable pub write_number : ℕ → ℕ → Bytes
write_number zero n = []
write_number (suc width) n = n % 256 ∷ write_number width (n / 256)

-- `READ` into a variable that holds 0. At the end of the file the bytes that are missing stay 0, and
-- the stream is empty from there.
unfoldable pub read_number : ℕ → Bytes → ℕ × Bytes
read_number zero s = (0, s)
read_number (suc width) [] = (0, [])
read_number (suc width) (b ∷ s) = let (n, rest) = read_number width s in (b + 256 * n, rest)

unfoldable pub write_vec3 : Vec3 → Bytes
write_vec3 v = write_number 4 v.x ++ (write_number 4 v.y ++ write_number 4 v.z)

unfoldable pub read_vec3 : Bytes → Vec3 × Bytes
read_vec3 s =
    let (x, s1) = read_number 4 s in
    let (y, s2) = read_number 4 s1 in
    let (z, s3) = read_number 4 s2 in (record { x = x; y = y; z = z }, s3)

unfoldable pub write_vec2 : Vec2 → Bytes
write_vec2 v = write_number 4 v.x ++ write_number 4 v.y

unfoldable pub read_vec2 : Bytes → Vec2 × Bytes
read_vec2 s =
    let (x, s1) = read_number 4 s in let (y, s2) = read_number 4 s1 in (record { x = x; y = y }, s2)

unfoldable pub write_submesh : Submesh → Bytes
write_submesh m = write_number 4 m.index_offset ++ write_number 4 m.index_count

unfoldable pub read_submesh : Bytes → Submesh × Bytes
read_submesh s =
    let (offset, s1) = read_number 4 s in
    let (count, s2) = read_number 4 s1 in
    (record { index_offset = offset; index_count = count }, s2)

-- The loops over the elements of a list.
unfoldable pub write_all : {A : Type 0} → (A → Bytes) → List A → Bytes
write_all write [] = []
write_all write (x ∷ xs) = write x ++ write_all write xs

unfoldable pub read_all : {A : Type 0} → (Bytes → A × Bytes) → ℕ → Bytes → List A × Bytes
read_all read zero s = ([], s)
read_all read (suc n) s = let (x, s1) = read s in let (xs, s2) = read_all read n s1 in (x ∷ xs, s2)

-- A count of eight bytes, and as many elements. The loop's index has 32 bits: it does not come to an
-- end where the count is `2 ^ 32` or more.
unfoldable pub read_counted : {A : Type 0} → (Bytes → A × Bytes) → Bytes → Outcome (List A × Bytes)
read_counted read s = do
  let (count, s1) = read_number 8 s
  require (ltb count (2 ^ 32)) out_of_fuel
  ok (read_all read count s1)

unfoldable pub write_counted : {A : Type 0} → (A → Bytes) → List A → Bytes
write_counted write xs = write_number 8 (length xs) ++ write_all write xs

unfoldable pub export_static_mesh_optimised : StaticMesh → Bytes
export_static_mesh_optimised m =
    write_counted write_vec3 m.positions
    ++ (write_counted write_vec3 m.normals
        ++ (write_counted write_vec2 m.tex_coords
            ++ (write_counted (write_number 4) m.triangles
                ++ (write_number 1 (length m.submeshes) ++ write_all write_submesh m.submeshes))))

-- `none` is a stream that could not be opened. The mesh that is filled is an empty one, as in the
-- one place that calls this.
unfoldable pub import_static_mesh_optimised : Option Bytes → StaticMesh → Outcome StaticMesh
import_static_mesh_optimised none out = ok out
import_static_mesh_optimised (some stream) out = do
  positions ← read_counted read_vec3 stream
  normals ← read_counted read_vec3 positions.1
  tex_coords ← read_counted read_vec2 normals.1
  triangles ← read_counted (read_number 4) tex_coords.1
  let (count, rest) = read_number 1 triangles.1
  let submeshes = read_all read_submesh count rest
  ok (record {
    positions = positions.0;
    normals = normals.0;
    tex_coords = tex_coords.0;
    triangles = triangles.0;
    submeshes = submeshes.0;
  })
