-- ===== src/Binary.antt =====
-- Rune/include/rune/io/io.hpp: `read_binary`. The file system is a parameter.
pub mod Whole
mod Tests
use rune_old.Base.{
  ℕ, ◌*◌, ◌/◌, Option, none, some, ◌++◌, if◌then◌else◌, ltb, length, Bytes, codes, Outcome, ok,
  fault, out_of_bounds,
}
use rune_old.Ini.{ReadResult, expected, unexpected}

-- The vector has as many elements of `size` bytes as fit into the file, and the read is of as many
-- bytes as the file has. The result is the vector's memory.
unfoldable pub read_binary : ℕ → (Bytes → Option Bytes) → Bytes → Outcome ReadResult
read_binary size files filename = elim (files filename) [
  | none ↦ ok (unexpected (codes "Failed to open file: " ++ filename))
  | some content ↦
      if ltb (length content / size * size) (length content)
      then fault out_of_bounds
      else ok (expected content)
]
