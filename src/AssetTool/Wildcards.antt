-- ===== src/AssetTool/Wildcards.antt =====
-- The replacements of `wildcardToRegex`, one after the other, treat each byte by itself.
use rune_old.Base.{
  ℕ, ◌≡◌, refl, sym, ap₂, ◌∙◌, List, [], ◌∷◌, ◌++◌, append_assoc, ◌==◌, if◌then◌else◌, Bytes, arith,
}
use rune_old.AssetTool.{replace_byte, replacements, replace_all, wildcard_to_regex}

replace_byte-append :
    (c : ℕ) (r xs ys : Bytes)
    → replace_byte c r (xs ++ ys) ≡ replace_byte c r xs ++ replace_byte c r ys
unfolding replace_byte
replace_byte-append c r [] ys = refl
replace_byte-append c r (x ∷ xs) ys =
    rw (replace_byte-append c r xs ys) (sym (append_assoc (if x == c then r else x ∷ []) _ _))

replace_all-append :
    (rs : List (ℕ × Bytes)) (xs ys : Bytes)
    → replace_all rs (xs ++ ys) ≡ replace_all rs xs ++ replace_all rs ys
unfolding replace_all
replace_all-append [] xs ys = refl
replace_all-append ((c, r) ∷ rs) xs ys =
    rw (replace_byte-append c r xs ys) (replace_all-append rs _ _)

-- What a byte stands for.
abbrev pub translate : ℕ → Bytes
translate x =
    if x == b'{'
    then b'\\' ∷ b'\\' ∷ b'}' ∷ []
    else if x == b'?'
    then b'.' ∷ []
    else if x == b'*'
    then b'.' ∷ b'*' ∷ []
    else if x == b'\\'
    then b'\\' ∷ x ∷ []
    else if x == b'^'
    then b'\\' ∷ x ∷ []
    else if x == b'.'
    then b'\\' ∷ x ∷ []
    else if x == b'$'
    then b'\\' ∷ x ∷ []
    else if x == b'|'
    then b'\\' ∷ x ∷ []
    else if x == b'('
    then b'\\' ∷ x ∷ []
    else if x == b')'
    then b'\\' ∷ x ∷ []
    else if x == b'['
    then b'\\' ∷ x ∷ []
    else if x == b']'
    then b'\\' ∷ x ∷ []
    else if x == b'+'
    then b'\\' ∷ x ∷ []
    else if x == b'/'
    then b'\\' ∷ x ∷ []
    else x ∷ []

abbrev pub translate_all : Bytes → Bytes
translate_all [] = []
translate_all (x ∷ xs) = translate x ++ translate_all xs

replace_all-byte : (x : ℕ) → replace_all replacements (x ∷ []) ≡ translate x
unfolding replace_all replace_byte
replace_all-byte x = ground arith

-- `wildcardToRegex` translates each byte by itself: the characters that are special in a regular
-- expression get a backslash, `?` becomes `.`, `*` becomes `.*`, an opening brace becomes two
-- backslashes and a closing brace, and every other byte, the closing brace among them, is kept.
pub wildcard_to_regex-translate : (s : Bytes) → wildcard_to_regex s ≡ translate_all s
unfolding wildcard_to_regex
wildcard_to_regex-translate [] = unfold replace_all replace_byte in refl
wildcard_to_regex-translate (x ∷ xs) =
    replace_all-append replacements (x ∷ []) xs
    ∙ ap₂ ◌++◌ (replace_all-byte x) (wildcard_to_regex-translate xs)
