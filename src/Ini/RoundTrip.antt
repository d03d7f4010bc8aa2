-- ===== src/Ini/RoundTrip.antt =====
-- `INIReader` reads a file of the grammar back as what the grammar says.
use rune_old.Base.{
  ℕ, ◌+◌, ◌%◌, ◌^◌, true, false, ◌&&◌, ◌≡◌, refl, Option, none, some, List, [], ◌∷◌, ◌++◌, ◌==◌,
  map, if◌then◌else◌, arith, Bytes, equal, equal_iff, get_value_or,
}
use rune_old.Maps.{find, assign, bytes_eq}
use rune_old.Maps.Laws.{find-upsert, find-assign}
use rune_old.Strings.{is_space, trim}
use rune_old.Strings.Trim.{trim_clean}
use rune_old.Ini.Lines.{
  lines-render, c_string-render, trim-header, trim-entry, trim-starts_with, ends_with-concat,
  substr-name, substr-key, substr-value, index_of-key,
}
use rune_old.Ini.Render.{
  Item, blank, remark, header, entry, render_item, render, StartsKey, IsKey, IsItem, AllItems,
  value_in,
}
use rune_old.Ini.{
  IniReader, ValueMap, Parsing, is_empty, starts_with, set_value, parse_statement, parse_line,
  parse_lines, parse_content, get_value,
}

abbrev count : Parsing → Parsing
count p = record p { line_index = (p.line_index + 1) % 2 ^ 32 }

-- What an item does to the state of the loop.
abbrev apply : Item → Parsing → Parsing
apply blank p = count p
apply (remark _) p = count p
apply (header name) p = record (count p) { section = name }
apply (entry k v) p = record (count p) { reader = set_value p.section k v p.reader }

starts_with_self : (c : ℕ) (s : Bytes) → starts_with c (c ∷ s) ≡ true
unfolding starts_with
starts_with_self c s = ground arith

parse_statement-header :
    (name : Bytes) (p : Parsing)
    → parse_statement (b'[' ∷ (name ++ b']' ∷ [])) p ≡ record p { section = name }
unfolding parse_statement
parse_statement-header name p = rw (
  starts_with_self b'[' (name ++ b']' ∷ []),
  ends_with-concat (b'[' ∷ name) b']',
  substr-name name,
)

starts_with-entry :
    (c : ℕ) (k v : Bytes)
    → starts_with c k ≡ false
    → (b'=' == c) ≡ false
    → starts_with c (k ++ b'=' ∷ v) ≡ false
unfolding starts_with
starts_with-entry c [] v h e = e
starts_with-entry c (x ∷ k) v h e = h

is_empty-entry : (k v : Bytes) → is_empty (k ++ b'=' ∷ v) ≡ false
unfolding is_empty
is_empty-entry [] v = refl
is_empty-entry (x ∷ k) v = refl

starts_with-StartsKey :
    (k : Bytes) → StartsKey k → (starts_with b';' k ≡ false) × (starts_with b'[' k ≡ false)
unfolding starts_with
starts_with-StartsKey [] h = (refl, refl)
starts_with-StartsKey (c ∷ k) h = h

parse_statement-entry :
    (k v : Bytes) (p : Parsing)
    → IsKey k
    → trim v ≡ v
    → parse_statement (k ++ b'=' ∷ v) p ≡ record p { reader = set_value p.section k v p.reader }
unfolding parse_statement
parse_statement-entry k v p h tv = rw (
  starts_with-entry b'[' k v (starts_with-StartsKey k h.3).1 refl,
  index_of-key k v h.2,
  substr-key k v,
  substr-value k v,
  trim_clean k h.1.0 h.1.1,
  tv,
)

parse_line-render_item :
    (i : Item) (p : Parsing) → IsItem i → parse_line (render_item i) p ≡ apply i p
unfolding render_item parse_line
parse_line-render_item blank p h = rw (trim_clean [] tt tt) (unfold is_empty in refl)
parse_line-render_item (remark text) p h =
    ground (arith, trim-starts_with b';' text (unfold is_space in refl))
parse_line-render_item (header name) p h =
    rw (trim-header name, parse_statement-header name (count p))
      (unfold is_empty starts_with in refl)
parse_line-render_item (entry k v) p h =
    rw
      (
        trim-entry k v h.0.1 h.1.1,
        is_empty-entry k v,
        starts_with-entry b';' k v (starts_with-StartsKey k h.0.3).0 refl,
      )
      (parse_statement-entry k v (count p) h.0 (trim_clean v h.1.1.0 h.1.1.1))

find-get_value_or :
    (k : Bytes) (o : Option ValueMap)
    → find k (get_value_or o []) ≡ elim o [ some values ↦ find k values | none ↦ none ]
unfolding find
find-get_value_or k none = refl
find-get_value_or k (some values) = refl

pub get_value-set_value :
    (s k s' k' v : Bytes) (r : IniReader)
    → get_value s k (set_value s' k' v r)
      ≡ (if equal s' s && equal k' k then some v else get_value s k r)
unfolding get_value set_value
get_value-set_value s k s' k' v r = ground (
  arith,
  find-upsert s' s [] (assign k' v) r.section_map,
  find-assign k' k v (get_value_or (find s' r.section_map) []),
  find-get_value_or k (find s' r.section_map),
  equal_iff s' s,
)

parse_lines-render_item :
    (s k : Bytes) (is : List Item) (p : Parsing)
    → AllItems is
    → let r = (parse_lines (map render_item is) p).reader in
      (r.errors ≡ p.reader.errors)
      × (get_value s k r ≡ value_in s k p.section (get_value s k p.reader) is)
unfolding parse_lines set_value
parse_lines-render_item s k [] p h = (refl, refl)
parse_lines-render_item s k (blank ∷ is) p h =
    rw (parse_line-render_item blank p h.0, parse_lines)
      (parse_lines-render_item s k is (apply blank p) h.1)
parse_lines-render_item s k (remark text ∷ is) p h =
    rw (parse_line-render_item (remark text) p h.0, parse_lines)
      (parse_lines-render_item s k is (apply (remark text) p) h.1)
parse_lines-render_item s k (header name ∷ is) p h =
    rw (parse_line-render_item (header name) p h.0, parse_lines)
      (parse_lines-render_item s k is (apply (header name) p) h.1)
parse_lines-render_item s k (entry k' v ∷ is) p h =
    rw (parse_line-render_item (entry k' v) p h.0, parse_lines)
      (rw (← get_value-set_value s k p.section k' v p.reader)
        (parse_lines-render_item s k is (apply (entry k' v) p) h.1))

-- Round trip: parsing the text of well-formed items, from a reader that has parsed nothing yet or
-- anything before, meets no error that was not there, and gives each key of each section the value
-- of its last entry, or the one it had before if the items hold none.
pub parse_content-render :
    (is : List Item) (r : IniReader) (s k : Bytes)
    → AllItems is
    → ((parse_content (render is) r).errors ≡ r.errors)
      × (get_value s k (parse_content (render is) r) ≡ value_in s k [] (get_value s k r) is)
unfolding parse_content
parse_content-render is r s k h =
    rw (c_string-render is h, lines-render is h, parse_content)
      (parse_lines-render_item s k is (record { line_index = 0; section = []; reader = r }) h)
