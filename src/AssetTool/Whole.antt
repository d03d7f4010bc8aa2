-- ===== src/AssetTool/Whole.antt =====
-- What a run of the tool leaves in the files.
use mathlib.Core.Option.{or_else}
use rune_old.Base.{
  Bool, true, false, if◌then◌else◌, Bool-cases, inl, inr, Option-cases, ◌≡◌, sym, ap, append-nil,
  append_assoc, refl, ◌∙◌, Option, none, some, List, [], ◌∷◌, ◌++◌, Bytes, equal,
}
use rune_old.AssetTool.{
  DirEntry, Files, Options, export_filename, export_meshes, convert, select_files, main,
}
use rune_old.Maps.{find, assign, bytes_eq}
use rune_old.Maps.Laws.{find-assign}
use rune_old.MeshFile.{StaticMesh, export_static_mesh_optimised}

-- The last item.
abbrev pub last {ℓ} : {A : Type ℓ} → List A → Option A
last [] = none
last (x ∷ xs) = elim (last xs) [ none ↦ some x | some y ↦ some y ]

abbrev pub exported : Option StaticMesh → Option Bytes
exported none = none
exported (some m) = some (export_static_mesh_optimised m)

find-export_meshes_any :
    (input k : Bytes) (ms : List StaticMesh) (files : Files)
    → find k (export_meshes input ms files) ≡ (
        if equal (export_filename input 0) k
        then or_else (exported (last ms)) (find k files)
        else find k files)
unfolding export_meshes or_else
find-export_meshes_any input k [] files = elim (Bool-cases (equal (export_filename input 0) k)) [
  | inl e ↦ rw (e) refl
  | inr e ↦ rw (e) refl
]
find-export_meshes_any input k (m ∷ ms) files =
    find-export_meshes_any input k ms (assign name (export_static_mesh_optimised m) files)
    ∙ rw (find-assign name k (export_static_mesh_optimised m) files)
        (elim (Bool-cases (equal name k)) [
          | inr e ↦ rw (e) refl
          | inl e ↦ elim (Option-cases (last ms)) [
            | inl h ↦ rw (e, h) refl
            | inr (x, h) ↦ rw (e, h) refl
          ]
        ])
  where
    name : Bytes
    name = export_filename input 0

abbrev pub given : List Bytes → Bool → Options
given inputs batch = record { inputs = inputs; batch = batch }

module _ (import : Bytes → List StaticMesh) where
  -- The mesh that the output file `k` holds behind the inputs: the last one of the last input that is
  -- written to it and has meshes.
  abbrev pub written : Bytes → List Bytes → Option StaticMesh
  written k [] = none
  written k (f ∷ fs) = elim (written k fs) [
    | some m ↦ some m
    | none ↦ if equal (export_filename f 0) k then last (import f) else none
  ]

  -- The meshes of the inputs, in order.
  abbrev pub imported : List Bytes → List StaticMesh
  imported [] = []
  imported (f ∷ fs) = import f ++ imported fs

  convert-imported :
      (batch : Bool) (fs : List Bytes) (ms : List StaticMesh) (files : Files)
      → (convert import batch fs (ms, files)).0 ≡ ms ++ imported fs
  unfolding convert
  convert-imported batch [] ms files = sym (append-nil ms)
  convert-imported batch (f ∷ fs) ms files =
      convert-imported batch fs (ms ++ import f) _ ∙ append_assoc ms (import f) (imported fs)

  convert-batch :
      (fs : List Bytes) (ms : List StaticMesh) (files : Files)
      → (convert import true fs (ms, files)).1 ≡ files
  unfolding convert
  convert-batch [] ms files = refl
  convert-batch (f ∷ fs) ms files = convert-batch fs (ms ++ import f) files

  find-convert :
      (k : Bytes) (fs : List Bytes) (ms : List StaticMesh) (files : Files)
      → find k (convert import false fs (ms, files)).1
        ≡ or_else (exported (written k fs)) (find k files)
  unfolding convert or_else
  find-convert k [] ms files = refl
  find-convert k (f ∷ fs) ms files =
      find-convert k fs (ms ++ import f) (export_meshes f (import f) files)
      ∙ elim (Option-cases (written k fs)) [
        | inr (m, later) ↦ rw (later) refl
        | inl none_later ↦
            rw (none_later, find-export_meshes_any f k (import f) files)
              (elim (Bool-cases (equal (export_filename f 0) k)) [
                | inl e ↦ rw (e) refl
                | inr e ↦ rw (e) refl
              ])
      ]

  -- A run of the tool, on every branch: without an input it imports nothing and leaves the files as
  -- they are. With inputs it imports the meshes of the files that they select, in order. If it is
  -- asked for a batch it leaves the files as they are; if not, every output file holds the last mesh
  -- of the last selected file that has meshes and whose output file it is, and all other files are as
  -- they were.
  pub find-main :
      (regex_match : Bytes → Bytes → Bool) (input : Bytes) (inputs : List Bytes) (batch : Bool)
      (entries : List DirEntry) (files : Files) (k : Bytes)
      → (main regex_match import (given [] batch) entries files ≡ ([], files))
        × ((main regex_match import (given (input ∷ inputs) batch) entries files).0
            ≡ imported (select_files regex_match (input ∷ inputs) entries))
        × (find k (main regex_match import (given (input ∷ inputs) batch) entries files).1 ≡ (
            if batch
            then find k files
            else or_else
                (exported (written k (select_files regex_match (input ∷ inputs) entries)))
                (find k files)))
  unfolding main
  find-main regex_match input inputs batch entries files k =
      let selected = select_files regex_match (input ∷ inputs) entries in
      (refl, convert-imported batch selected [] files, kept batch)
    where
      kept :
          (b : Bool)
          → find k
              (convert import b (select_files regex_match (input ∷ inputs) entries) ([], files)).1
            ≡ (if b
                then find k files
                else or_else
                    (exported (written k (select_files regex_match (input ∷ inputs) entries)))
                    (find k files))
      kept true = ap (find k) (convert-batch _ [] files)
      kept false = find-convert k _ [] files
