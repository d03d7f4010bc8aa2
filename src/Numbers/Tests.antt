-- ===== src/Numbers/Tests.antt =====
-- Printing one number.
use rune_old.Base.{◌≡◌, refl, codes}
use rune_old.Numbers.{to_string}
use rune_old.Numbers.Int.{negsuc}

to_string_example : to_string (negsuc 41) ≡ codes "-42"
unfolding to_string
to_string_example = refl
