-- ===== src/RawMesh.antt =====
-- AssetLib/src/mesh/static_mesh.cpp: the import of raw meshes. What Assimp reads is a parameter: its
-- scene, a tree of nodes over a table of meshes.
pub mod Process
pub mod Import
mod Tests
use rune_old.Base.{
  ℕ, zero, suc, ◌+◌, ◌*◌, ◌%◌, ◌^◌, ◌||◌, Bool, true, false, not, Option, none, some, List, [], ◌∷◌,
  ◌++◌, if◌then◌else◌, ltb, length, get_elem?, set, replicate, Bytes, Outcome, ok, fault, ◌>>=◌,
  ◌>>◌, or_fault, require, for_each, out_of_bounds, out_of_fuel,
}
use rune_old.MeshFile.{Vec3, Vec2, StaticMesh, Submesh}
use rune_old.Paths.{extension}

-- `aiMesh`: the arrays of normals and of the first texture coordinates are there or not.
pub record AiMesh : Type 0 where
  pub vertices : List Vec3
  pub normals : Option (List Vec3)
  pub tex_coords : Option (List Vec2)
  pub faces : List (List ℕ)

mutual
  -- `aiNode`: indices of meshes, and children.
  pub data AiNode : Type 0 where
    node : List ℕ → AiNodes → AiNode

  pub data AiNodes : Type 0 where
    none_left : AiNodes
    child : AiNode → AiNodes → AiNodes

pub record AiScene : Type 0 where
  pub root : AiNode
  pub meshes : List AiMesh

abbrev pub zero3 : Vec3
zero3 = record { x = 0; y = 0; z = 0 }

abbrev pub zero2 : Vec2
zero2 = record { x = 0; y = 0 }

-- A write to an element of a vector.
abbrev pub write_at {ℓ} : {A : Type ℓ} → List A → ℕ → A → Outcome (List A)
write_at xs i v = if ltb i (length xs) then ok (set xs i v) else fault out_of_bounds

-- `resize` by `n` more elements.
abbrev pub grow {ℓ} : {A : Type ℓ} → ℕ → A → List A → List A
grow n a xs = xs ++ replicate n a

-- The element that the loop over the vertices copies: of an array that is missing, the zero.
unfoldable pub element_of : {A : Type 0} → Option (List A) → A → ℕ → Outcome A
element_of none zero_value i = ok zero_value
element_of (some xs) zero_value i = or_fault (get_elem? xs i) out_of_bounds

-- The loop over the vertices from `i`.
unfoldable pub copy_vertices : AiMesh → List Vec3 → ℕ → StaticMesh → Outcome StaticMesh
unfolding element_of
copy_vertices mesh [] i out = ok out
copy_vertices mesh (v ∷ vs) i out = do
  positions ← write_at out.positions i v
  n ← element_of mesh.normals zero3 i
  normals ← write_at out.normals i n
  t ← element_of mesh.tex_coords zero2 i
  tex_coords ← write_at out.tex_coords i t
  copy_vertices mesh vs (suc i)
      (record out { positions = positions; normals = normals; tex_coords = tex_coords })

-- The loop over the indices of a face, from `at`; indices are unsigned ints.
unfoldable pub copy_face : List ℕ → ℕ → List ℕ → Outcome (List ℕ)
copy_face [] at triangles = ok triangles
copy_face (v ∷ vs) at triangles = do
  triangles' ← write_at triangles at v
  copy_face vs (suc at % 2 ^ 32) triangles'

-- The loop over the faces from `i`.
unfoldable pub copy_faces : List (List ℕ) → ℕ → List ℕ → Outcome (List ℕ)
copy_faces [] i triangles = ok triangles
copy_faces (f ∷ fs) i triangles = do
  triangles' ← copy_face f ((i * 3) % 2 ^ 32) triangles
  copy_faces fs (suc i) triangles'

-- The arrays with room for the elements of the mesh, and its submesh.
abbrev pub resized : AiMesh → StaticMesh → StaticMesh
resized mesh out =
    let n = length mesh.vertices in
    let submesh : Submesh = record {
      index_offset = length out.triangles % 2 ^ 32;
      index_count = (length mesh.faces * 3) % 2 ^ 32;
    } in
    record out {
      submeshes = out.submeshes ++ submesh ∷ [];
      positions = grow n zero3 out.positions;
      normals = grow n zero3 out.normals;
      tex_coords = grow n zero2 out.tex_coords;
      triangles = grow ((length mesh.faces * 3) % 2 ^ 32) 0 out.triangles;
    }

unfoldable pub assimp_process_mesh : AiMesh → StaticMesh → Outcome StaticMesh
assimp_process_mesh mesh out = do
  copied ← copy_vertices mesh mesh.vertices 0 (resized mesh out)
  triangles ← copy_faces mesh.faces 0 copied.triangles
  ok (record copied { triangles = triangles })

abbrev pub no_mesh : StaticMesh
no_mesh = record { positions = []; normals = []; tex_coords = []; triangles = []; submeshes = [] }

-- The loop over the meshes of a node.
unfoldable pub process_meshes : AiScene → List ℕ → List StaticMesh → Outcome (List StaticMesh)
process_meshes scene [] out = ok out
process_meshes scene (i ∷ is) out = do
  mesh ← or_fault (get_elem? scene.meshes i) out_of_bounds
  m ← assimp_process_mesh mesh no_mesh
  process_meshes scene is (out ++ m ∷ [])

unfoldable mutual
  pub assimp_process_node : AiScene → AiNode → List StaticMesh → Outcome (List StaticMesh)
  assimp_process_node scene (node is children) out =
      process_meshes scene is out >>= process_children scene children

  pub process_children : AiScene → AiNodes → List StaticMesh → Outcome (List StaticMesh)
  process_children scene none_left out = ok out
  process_children scene (child n ns) out =
      assimp_process_node scene n out >>= process_children scene ns

-- `none` is a file that Assimp cannot read. Its flags depend on whether meshes are separated.
unfoldable pub import_static_mesh_raw :
    (Bytes → Bool) → (Bool → Bytes → Option AiScene) → Bytes → Bool → Outcome (List StaticMesh)
import_static_mesh_raw is_extension_supported read_file filename separate_meshes =
    if not (is_extension_supported (extension filename))
    then ok []
    else elim (read_file separate_meshes filename) [
      | none ↦ ok []
      | some scene ↦ assimp_process_node scene scene.root []
    ]
