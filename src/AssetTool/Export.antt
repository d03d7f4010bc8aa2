-- ===== src/AssetTool/Export.antt =====
-- Which files the tool writes.
use rune_old.Base.{
  if◌then◌else◌, Bool-cases, inl, inr, false, ◌≡◌, refl, ◌∙◌, some, List, [], ◌∷◌, ◌++◌, Bytes,
  equal,
}
use rune_old.AssetTool.{Files, export_filename, export_meshes}
use rune_old.Maps.{find, assign, bytes_eq}
use rune_old.Maps.Laws.{find-assign}
use rune_old.MeshFile.{StaticMesh, export_static_mesh_optimised}

export_meshes-append :
    (input : Bytes) (ms : List StaticMesh) (m : StaticMesh) (files : Files)
    → export_meshes input (ms ++ m ∷ []) files
      ≡ assign
          (export_filename input 0)
          (export_static_mesh_optimised m)
          (export_meshes input ms files)
unfolding export_meshes
export_meshes-append input [] m files = refl
export_meshes-append input (n ∷ ms) m files = export_meshes-append input ms m _

find-export_meshes :
    (input k : Bytes) (ms : List StaticMesh) (files : Files)
    → equal (export_filename input 0) k ≡ false
    → find k (export_meshes input ms files) ≡ find k files
unfolding export_meshes
find-export_meshes input k [] files h = refl
find-export_meshes input k (m ∷ ms) files h =
    find-export_meshes input k ms _ h
    ∙ rw (find-assign (export_filename input 0) k (export_static_mesh_optimised m) files, h)

-- All meshes of an input file are written to one output file, which holds the last of them in the
-- end; every other file is left as it was.
pub find-export_meshes_last :
    (input k : Bytes) (ms : List StaticMesh) (m : StaticMesh) (files : Files)
    → find k (export_meshes input (ms ++ m ∷ []) files) ≡ (
        if equal (export_filename input 0) k
        then some (export_static_mesh_optimised m)
        else find k files)
find-export_meshes_last input k ms m files =
    rw
      (
        export_meshes-append input ms m files,
        find-assign (export_filename input 0) k (export_static_mesh_optimised m)
            (export_meshes input ms files),
      )
      (elim (Bool-cases (equal (export_filename input 0) k)) [
        | inl e ↦ rw (e) refl
        | inr e ↦ rw (e) (find-export_meshes input k ms files e)
      ])
