-- ===== src/RawMesh/Import.antt =====
-- The import of a scene takes the meshes of its nodes in order, parents first.
use rune_old.Base.{
  ℕ, Bool, true, ◌≡◌, refl, sym, ap, ◌∙◌, Option, some, List, [], ◌∷◌, ◌++◌, append-nil,
  append_assoc, map, get_elem?, Bytes, ok, ◌>>=◌, or_fault, out_of_bounds, bind-ap, bind_assoc,
}
use rune_old.MeshFile.{StaticMesh}
use rune_old.Paths.{extension}
use rune_old.RawMesh.{
  AiMesh, AiNode, node, AiNodes, none_left, child, AiScene, no_mesh, process_meshes,
  assimp_process_node, process_children, assimp_process_mesh, import_static_mesh_raw,
}
use rune_old.RawMesh.Process.{IsTriangleMesh, imported, assimp_process_mesh-imported}

-- The indices of a node's meshes, and then those of its children in turn.
abbrev mutual
  pub indices : AiNode → List ℕ
  indices (node is children) = is ++ child_indices children

  pub child_indices : AiNodes → List ℕ
  child_indices none_left = []
  child_indices (child n ns) = indices n ++ child_indices ns

module _ (scene : AiScene) where
  process_meshes-nil : (out : List StaticMesh) → ok out ≡ process_meshes scene [] out
  unfolding process_meshes
  process_meshes-nil out = refl

  process_meshes-append :
      (is js : List ℕ) (out : List StaticMesh)
      → process_meshes scene (is ++ js) out
        ≡ (process_meshes scene is out >>= process_meshes scene js)
  unfolding process_meshes
  process_meshes-append [] js out = refl
  process_meshes-append (i ∷ is) js out =
      let m = or_fault (get_elem? scene.meshes i) out_of_bounds in
      bind-ap m _ _ (λ mesh.
        bind-ap (assimp_process_mesh mesh no_mesh) _ _
          (λ x. process_meshes-append is js (out ++ x ∷ []))
        ∙ sym (bind_assoc (assimp_process_mesh mesh no_mesh) _ _))
      ∙ sym (bind_assoc m _ _)

mutual
  unfolding assimp_process_node

  assimp_process_node-indices :
      (scene : AiScene) (n : AiNode) (out : List StaticMesh)
      → assimp_process_node scene n out ≡ process_meshes scene (indices n) out
  assimp_process_node-indices scene (node is children) out =
      bind-ap (process_meshes scene is out) _ _ (process_children-indices scene children)
      ∙ sym (process_meshes-append scene is (child_indices children) out)

  process_children-indices :
      (scene : AiScene) (ns : AiNodes) (out : List StaticMesh)
      → process_children scene ns out ≡ process_meshes scene (child_indices ns) out
  process_children-indices scene none_left out = process_meshes-nil scene out
  process_children-indices scene (child n ns) out =
      ap (λ m. m >>= process_children scene ns) (assimp_process_node-indices scene n out)
      ∙ bind-ap (process_meshes scene (indices n) out) _ _ (process_children-indices scene ns)
      ∙ sym (process_meshes-append scene (indices n) (child_indices ns) out)

-- The indices are those of meshes of triangles, which are `ms`.
pub data Picks (scene : AiScene) : List ℕ → List AiMesh → Type 0 where
  nothing : Picks scene [] []
  pick :
      {i : ℕ} {is : List ℕ} {m : AiMesh} {ms : List AiMesh}
      → get_elem? scene.meshes i ≡ some m
      → IsTriangleMesh m
      → Picks scene is ms
      → Picks scene (i ∷ is) (m ∷ ms)

process_meshes-Picks :
    (scene : AiScene) {is : List ℕ} {ms : List AiMesh} (out : List StaticMesh)
    → Picks scene is ms
    → process_meshes scene is out ≡ ok (out ++ map imported ms)
unfolding process_meshes
process_meshes-Picks scene out nothing = rw append-nil
process_meshes-Picks scene out (pick {m = m} {ms = ms} found fits rest) =
    rw (found, assimp_process_mesh-imported m fits)
      (process_meshes-Picks scene (out ++ imported m ∷ []) rest
        ∙ ap ok (append_assoc out (imported m ∷ []) (map imported ms)))

-- The import of a file that Assimp reads returns the meshes of the scene's nodes, a node's meshes
-- ahead of those of its children and the children in order, if the nodes' indices are those of
-- meshes of triangles. Each mesh comes out with its vertices, its normals and texture coordinates,
-- zeros where it has none, the indices of its faces in order, and one submesh.
pub import_static_mesh_raw-Picks :
    (is_extension_supported : Bytes → Bool) (read_file : Bool → Bytes → Option AiScene)
    (filename : Bytes) (separate_meshes : Bool) (scene : AiScene) (ms : List AiMesh)
    → is_extension_supported (extension filename) ≡ true
    → read_file separate_meshes filename ≡ some scene
    → Picks scene (indices scene.root) ms
    → import_static_mesh_raw is_extension_supported read_file filename separate_meshes
      ≡ ok (map imported ms)
unfolding import_static_mesh_raw
import_static_mesh_raw-Picks is_extension_supported read_file filename separate_meshes scene ms h r
      picks =
    rw (h, r)
      (assimp_process_node-indices scene scene.root [] ∙ process_meshes-Picks scene [] picks)
