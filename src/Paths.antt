-- ===== src/Paths.antt =====
-- What the source uses of `std::filesystem::path`, and the search for the last of a character in
-- a text. A path is its text, with `/` as separator.
pub mod Split
use rune_old.Base.{
  ℕ, Bool, true, false, not, ◌&&◌, ◌||◌, Option, none, some, List, [], ◌∷◌, ◌++◌, ◌==◌,
  if◌then◌else◌, Bytes, equal, codes,
}

-- The texts before and behind the last byte `b`.
unfoldable pub split_last : ℕ → Bytes → Option (Bytes × Bytes)
split_last b [] = none
split_last b (c ∷ cs) = elim (split_last b cs) [
  | some (front, back) ↦ some (c ∷ front, back)
  | none ↦ if c == b then some ([], cs) else none
]

unfoldable pub file_name : Bytes → Bytes
unfolding split_last
file_name path = elim (split_last b'/' path) [ some (_, name) ↦ name | none ↦ path ]

unfoldable pub parent_path : Bytes → Bytes
unfolding split_last
parent_path path = elim (split_last b'/' path) [
  | some (front, _) ↦ elim front [ [] ↦ b'/' ∷ [] | c ∷ cs ↦ c ∷ cs ]
  | none ↦ []
]

-- The name without its extension, and the extension with its dot. A dot in front of the name starts
-- no extension.
split_name : Bytes → Bytes × Bytes
unfolding split_last
split_name name = if equal name (codes "..") then (name, []) else elim (split_last b'.' name) [
  | some (front, back) ↦ elim front [ [] ↦ (name, []) | c ∷ cs ↦ (c ∷ cs, b'.' ∷ back) ]
  | none ↦ (name, [])
]

unfoldable pub stem : Bytes → Bytes
unfolding split_name file_name
stem path = (split_name (file_name path)).0

unfoldable pub extension : Bytes → Bytes
unfolding split_name file_name
extension path = (split_name (file_name path)).1

ends_with_slash : Bytes → Bool
ends_with_slash [] = true
ends_with_slash (c ∷ []) = c == b'/'
ends_with_slash (_ ∷ c ∷ cs) = ends_with_slash (c ∷ cs)

-- `operator/`
unfoldable pub join : Bytes → Bytes → Bytes
unfolding ends_with_slash
join path [] = if ends_with_slash path then path else path ++ b'/' ∷ []
join path (c ∷ cs) =
    if c == b'/'
    then c ∷ cs
    else if ends_with_slash path
    then path ++ c ∷ cs
    else path ++ b'/' ∷ c ∷ cs
