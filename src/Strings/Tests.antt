-- ===== src/Strings/Tests.antt =====
-- The trimming theorems on a string with white space at both ends.
use rune_old.Base.{◌≡◌, refl, Bytes, codes}
use rune_old.Strings.{is_space, left_trim, right_trim, trim}
use rune_old.Strings.Trim.{TrimsTo, trim-TrimsTo}

abbrev padded : Bytes
padded = codes " a b \n"

trim-TrimsTo_example : TrimsTo padded (trim padded)
trim-TrimsTo_example = trim-TrimsTo padded

trim-padded : trim padded ≡ codes "a b"
unfolding trim right_trim left_trim is_space
trim-padded = refl
