-- ===== src/Binary/Whole.antt =====
-- Which files `read_binary` reads.
use rune_old.Base.{
  ℕ, ◌+◌, ◌*◌, ◌/◌, ◌%◌, ◌≡◌, Option, some, if◌then◌else◌, ◌==◌, arith, ltb, length, Bytes, ok,
  fault, out_of_bounds,
}
use native.Mathlib.Nat.{div-add-mod'}
use rune_old.Binary.{read_binary}
use rune_old.Ini.{expected}

same_test :
    {A : Type 0} (n q r : ℕ) (x y : A)
    → q + r ≡ n
    → (if ltb q n then y else x) ≡ (if r == 0 then x else y)
same_test n q r x y h = ground arith

-- A file that can be opened is read, as it is, if its length is a multiple of the size of an element;
-- otherwise the read goes past the end of the vector.
pub read_binary-whole :
    (size : ℕ) (files : Bytes → Option Bytes) (filename content : Bytes)
    → files filename ≡ some content
    → read_binary size files filename
      ≡ (if (length content % size) == 0 then ok (expected content) else fault out_of_bounds)
unfolding read_binary
read_binary-whole size files filename content h =
    rw (read_binary, h)
      (same_test (length content) (length content / size * size) (length content % size)
        (ok (expected content)) (fault out_of_bounds) (div-add-mod' (length content) size))
