-- ===== src/AssetTool/Tests.antt =====
-- A wildcard, and a directory with two meshes of one stem.
use mathlib.Core.Option.{or_else}
use rune_old.Base.{◌≡◌, none, List, [], ◌∷◌, true, false, Bytes, codes, equal, if◌then◌else◌}
use rune_old.AssetTool.{DirEntry, main, select_files, wildcard_to_regex}
use rune_old.AssetTool.Whole.{exported, written, imported, given, find-main}
use rune_old.AssetTool.Wildcards.{translate_all, wildcard_to_regex-translate}
use rune_old.Maps.{find, bytes_eq}
use rune_old.MeshFile.{StaticMesh}

wildcard_to_regex-translate_example :
    wildcard_to_regex (codes "models/?{a}*.obj") ≡ translate_all (codes "models/?{a}*.obj")
wildcard_to_regex-translate_example = wildcard_to_regex-translate (codes "models/?{a}*.obj")

abbrev empty_mesh : StaticMesh
empty_mesh = record {
  positions = [];
  normals = [];
  tex_coords = [];
  triangles = [];
  submeshes = [];
}

abbrev point : StaticMesh
point = record {
  positions = record { x = 0; y = 0; z = 0 } ∷ [];
  normals = [];
  tex_coords = [];
  triangles = [];
  submeshes = [];
}

abbrev rock : Bytes
rock = codes "meshes/rock.obj"

-- Two inputs of one stem: the second has two meshes.
abbrev meshes_of : Bytes → List StaticMesh
meshes_of input = if equal input rock then point ∷ [] else point ∷ empty_mesh ∷ []

abbrev entries : List DirEntry
entries =
    record { path = rock; is_regular_file = true }
    ∷ record { path = codes "old/rock.obj"; is_regular_file = true }
    ∷ []

find-main_example :
    (main (λ _ _. true) meshes_of (given [] false) entries [] ≡ ([], []))
    × ((main (λ _ _. true) meshes_of (given (codes "*.obj" ∷ []) false) entries []).0
        ≡ imported meshes_of (select_files (λ _ _. true) (codes "*.obj" ∷ []) entries))
    × (find
          (codes "rock_0.bin")
          (main (λ _ _. true) meshes_of (given (codes "*.obj" ∷ []) false) entries []).1
        ≡ or_else
            (exported (
              written meshes_of
                (codes "rock_0.bin")
                (select_files (λ _ _. true) (codes "*.obj" ∷ []) entries)))
            none)
unfolding find
find-main_example =
    find-main meshes_of (λ _ _. true) (codes "*.obj") [] false entries [] (codes "rock_0.bin")
