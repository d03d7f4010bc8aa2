-- ===== src/Ini/Render.antt =====
-- INI files as a grammar, with no regard to how `INIReader` reads them: what an item looks like in
-- the file, and which value the items give a key.
use rune_old.Base.{
  false, ◌&&◌, ◌≡◌, Option, some, List, [], ◌∷◌, ◌++◌, ◌==◌, reverse, if◌then◌else◌, Bytes, equal,
}
use rune_old.Strings.Trim.{StartsClean}

pub data Item : Type 0 where
  blank : Item
  remark : Bytes → Item
  header : Bytes → Item
  entry : Bytes → Bytes → Item

unfoldable pub render_item : Item → Bytes
render_item blank = []
render_item (remark text) = b';' ∷ text
render_item (header name) = b'[' ∷ (name ++ b']' ∷ [])
render_item (entry key value) = key ++ b'=' ∷ value

unfoldable pub render : List Item → Bytes
unfolding render_item
render [] = []
render (i ∷ is) = render_item i ++ b'\n' ∷ render is

-- No byte ends the line or the string.
abbrev pub IsPlain : Bytes → Type 0
IsPlain [] = Unit
IsPlain (c ∷ cs) = ((c == b'\n') ≡ false) × ((c == 0) ≡ false) × IsPlain cs

-- No white space at either end.
abbrev pub IsClean : Bytes → Type 0
IsClean s = StartsClean s × StartsClean (reverse s)

-- No `=`.
abbrev pub NoEquals : Bytes → Type 0
NoEquals [] = Unit
NoEquals (c ∷ cs) = ((c == b'=') ≡ false) × NoEquals cs

-- Neither a comment nor a section.
abbrev pub StartsKey : Bytes → Type 0
StartsKey [] = Unit
StartsKey (c ∷ cs) = ((c == b';') ≡ false) × ((c == b'[') ≡ false)

abbrev pub IsKey : Bytes → Type 0
IsKey k = IsPlain k × IsClean k × NoEquals k × StartsKey k

abbrev pub IsItem : Item → Type 0
IsItem blank = Unit
IsItem (remark text) = IsPlain text
IsItem (header name) = IsPlain name
IsItem (entry key value) = IsKey key × (IsPlain value × IsClean value)

abbrev pub AllItems : List Item → Type 0
AllItems [] = Unit
AllItems (i ∷ is) = IsItem i × AllItems is

-- The value that a key of a section has behind the items: the last entry's. `current` is the section
-- that the items stand in, and `before` the value ahead of them.
abbrev pub value_in : Bytes → Bytes → Bytes → Option Bytes → List Item → Option Bytes
value_in section key current before [] = before
value_in section key current before (blank ∷ is) = value_in section key current before is
value_in section key current before (remark _ ∷ is) = value_in section key current before is
value_in section key current before (header name ∷ is) = value_in section key name before is
value_in section key current before (entry k v ∷ is) =
    value_in section key current (if equal current section && equal k key then some v else before)
      is
