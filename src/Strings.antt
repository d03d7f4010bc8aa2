-- ===== src/Strings.antt =====
-- Rune/src/utility/strings.cpp: trimming of byte strings in place. A function that changes its
-- argument returns the new string.
pub mod Trim
mod Tests
use rune_old.Base.{
  ℕ, ◌||◌, ◌&&◌, Bool, not, List, [], ◌∷◌, reverse, ◌==◌, leb, if◌then◌else◌, Bytes,
}

-- `std::isspace` of the C locale: tab, line feed, vertical tab, form feed, carriage return, space.
unfoldable pub is_space : ℕ → Bool
is_space c = c == b' ' || leb 9 c && leb c 13

-- `erase(begin, find_if(not isspace))`
unfoldable pub left_trim : Bytes → Bytes
left_trim [] = []
left_trim (c ∷ cs) = if is_space c then left_trim cs else c ∷ cs

-- The search runs from the back, over the reverse iterators.
unfoldable pub right_trim : Bytes → Bytes
right_trim s = reverse (left_trim (reverse s))

unfoldable pub trim : Bytes → Bytes
trim s = right_trim (left_trim s)
