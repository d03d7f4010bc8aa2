-- ===== src/Binary/Tests.antt =====
-- A file of six bytes, read as words of four.
use rune_old.Base.{
  ◌≡◌, refl, ◌%◌, some, [], ◌∷◌, if◌then◌else◌, ◌==◌, length, Bytes, codes, ok, fault,
  out_of_bounds,
}
use rune_old.Binary.{read_binary}
use rune_old.Binary.Whole.{read_binary-whole}
use rune_old.Ini.{expected}

abbrev six : Bytes
six = 1 ∷ 2 ∷ 3 ∷ 4 ∷ 5 ∷ 6 ∷ []

read_binary-whole_example :
    read_binary 4 (λ _. some six) (codes "triangle.spv")
    ≡ (if (length six % 4) == 0 then ok (expected six) else fault out_of_bounds)
read_binary-whole_example = read_binary-whole 4 (λ _. some six) (codes "triangle.spv") six refl
