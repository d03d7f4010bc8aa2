-- ===== src/Ini/Tests.antt =====
-- A small file, printed and read back.
use rune_old.Base.{◌≡◌, refl, some, List, [], ◌∷◌, codes, arith, equal, ◌++◌, Bytes}
use rune_old.Ini.{
  lines, c_string, IniReader, is_empty, starts_with, ends_with, index_of, substr, set_value,
  parse_statement, parse_line, parse_content, get_value,
}
use rune_old.Maps.{find, upsert, assign, bytes_eq}
use rune_old.Ini.Errors.{report, errors-parse_content}
use rune_old.Ini.Render.{Item, remark, header, entry, render, AllItems, value_in}
use rune_old.Ini.RoundTrip.{parse_content-render}
use rune_old.Strings.{is_space, left_trim, right_trim, trim}

abbrev items : List Item
items =
    remark (codes " window")
    ∷ header (codes "window")
    ∷ entry (codes "title") (codes "Rune Game")
    ∷ entry (codes "width") (codes "640")
    ∷ entry (codes "width") (codes "800")
    ∷ []

abbrev empty_reader : IniReader
empty_reader = record { section_map = []; errors = [] }

items-AllItems : AllItems items
unfolding is_space
items-AllItems = ground arith

parse_content-render_example :
    ((parse_content (render items) empty_reader).errors ≡ [])
    × (get_value (codes "window") (codes "width") (parse_content (render items) empty_reader)
        ≡ value_in
            (codes "window")
            (codes "width")
            []
            (get_value (codes "window") (codes "width") empty_reader)
            items)
parse_content-render_example =
    parse_content-render items empty_reader (codes "window") (codes "width") items-AllItems

get_value_example :
    get_value (codes "window") (codes "width") (parse_content (render items) empty_reader)
    ≡ some (codes "800")
unfolding get_value parse_content render find parse_line is_empty trim right_trim left_trim is_space
    starts_with parse_statement index_of set_value upsert assign ends_with substr equal
get_value_example = refl

-- A bracket that is not closed, an entry, and a line that is neither.
abbrev broken : Bytes
broken = codes "[window" ++ b'\n' ∷ codes "a=1" ++ b'\n' ∷ codes "speed"

errors-parse_content_example :
    (parse_content broken empty_reader).errors ≡ [] ++ report 0 (lines (c_string broken))
unfolding lines c_string
errors-parse_content_example = errors-parse_content broken empty_reader (omega arith)
