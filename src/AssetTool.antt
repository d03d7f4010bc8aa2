-- ===== src/AssetTool.antt =====
-- AssetLib/src/main.cpp: the command-line tool that converts meshes. The regular expressions, the
-- file system, the parsing of the command line and the import of a file are parameters; what the tool
-- prints is left out.
pub mod Wildcards
pub mod Export
pub mod Whole
mod Tests
use rune_old.Base.{
  ℕ, Bool, true, false, not, ◌&&◌, List, [], ◌∷◌, ◌++◌, ◌==◌, if◌then◌else◌, Bytes, codes,
}
use rune_old.Maps.{assign, bytes_eq}
use rune_old.MeshFile.{StaticMesh, export_static_mesh_optimised}
use rune_old.Numbers.{to_string}
use rune_old.Numbers.Int.{pos}
use rune_old.Paths.{stem}

-- `std::regex_replace` of a byte by a text.
unfoldable pub replace_byte : ℕ → Bytes → Bytes → Bytes
replace_byte c r [] = []
replace_byte c r (x ∷ xs) = (if x == c then r else x ∷ []) ++ replace_byte c r xs

-- A backslash in front of the byte.
abbrev pub escaped : ℕ → ℕ × Bytes
escaped c = (c, b'\\' ∷ c ∷ [])

-- The replacements of `wildcardToRegex`, in order. The second one of a brace looks for the opening
-- brace again.
abbrev pub replacements : List (ℕ × Bytes)
replacements =
    escaped b'\\'
    ∷ escaped b'^'
    ∷ escaped b'.'
    ∷ escaped b'$'
    ∷ escaped b'|'
    ∷ escaped b'('
    ∷ escaped b')'
    ∷ escaped b'{'
    ∷ (b'{', b'\\' ∷ b'}' ∷ [])
    ∷ escaped b'['
    ∷ escaped b']'
    ∷ escaped b'+'
    ∷ escaped b'/'
    ∷ (b'?', b'.' ∷ [])
    ∷ (b'*', b'.' ∷ b'*' ∷ [])
    ∷ []

unfoldable pub replace_all : List (ℕ × Bytes) → Bytes → Bytes
replace_all [] s = s
replace_all ((c, r) ∷ rs) s = replace_all rs (replace_byte c r s)

-- The text of the regular expression.
unfoldable pub wildcard_to_regex : Bytes → Bytes
wildcard_to_regex s = replace_all replacements s

-- An entry of the directory that is walked.
pub record DirEntry : Type 0 where
  pub path : Bytes
  pub is_regular_file : Bool

-- The loop over the inputs: a file is taken once for each input that it matches.
unfoldable pub match_inputs : (Bytes → Bytes → Bool) → List Bytes → DirEntry → List Bytes
match_inputs regex_match [] e = []
match_inputs regex_match (input ∷ inputs) e =
    let rest = match_inputs regex_match inputs e in
    if e.is_regular_file && regex_match (wildcard_to_regex input) e.path
    then e.path ∷ rest
    else rest

unfoldable pub select_files : (Bytes → Bytes → Bool) → List Bytes → List DirEntry → List Bytes
select_files regex_match inputs [] = []
select_files regex_match inputs (e ∷ es) =
    match_inputs regex_match inputs e ++ select_files regex_match inputs es

-- The files that are written, each with its content.
abbrev pub Files : Type 0
Files = List (Bytes × Bytes)

unfoldable pub export_filename : Bytes → ℕ → Bytes
export_filename input i = stem input ++ (b'_' ∷ (to_string (pos i) ++ codes ".bin"))

-- The loop over the meshes of a file; its variable `i` stays 0.
unfoldable pub export_meshes : Bytes → List StaticMesh → Files → Files
export_meshes input [] files = files
export_meshes input (m ∷ ms) files =
    export_meshes input ms (assign (export_filename input 0) (export_static_mesh_optimised m) files)

-- The loop over the input files, with all meshes that were imported so far.
unfoldable pub convert :
    (Bytes → List StaticMesh)
    → Bool
    → List Bytes
    → List StaticMesh × Files
    → List StaticMesh × Files
convert import batch_export [] (imported, files) = (imported, files)
convert import batch_export (input ∷ inputs) (imported, files) =
    let meshes = import input in
    convert import batch_export inputs
      (imported ++ meshes, if batch_export then files else export_meshes input meshes files)

-- The options that `main` reads, as cxxopts parses them; the other two only print.
pub record Options : Type 0 where
  pub inputs : List Bytes
  pub batch : Bool

-- `main` on the files of the current directory: the meshes that were imported, and the files that are
-- there then. With no input it only prints its help.
unfoldable pub main :
    (Bytes → Bytes → Bool)
    → (Bytes → List StaticMesh)
    → Options
    → List DirEntry
    → Files
    → List StaticMesh × Files
main regex_match import o entries files = elim (o.inputs) [
  | [] ↦ ([], files)
  | ◌∷◌ _ _ ↦ convert import o.batch (select_files regex_match o.inputs entries) ([], files)
]
