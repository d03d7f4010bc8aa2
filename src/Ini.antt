-- ===== src/Ini.antt =====
-- Rune/src/utility/ini_reader.cpp: `INIReader`, a map from sections to maps from keys to values,
-- and the text of the errors that parsing met. A file is read by `io::read_string`
-- (Rune/src/io/io.cpp), of which the file system is a parameter: the content of each file, if it
-- can be opened.
mod Lines
pub mod Render
pub mod RoundTrip
pub mod Errors
mod Tests
use rune_old.Base.{
  ℕ, zero, suc, ◌+◌, ◌-◌, ◌%◌, ◌^◌, Bool, true, false, not, ◌||◌, Option, none, some, List, [], ◌∷◌,
  ◌++◌, ◌==◌, if◌then◌else◌, Bytes, codes, length, take, drop,
}
use rune_old.Maps.{find, upsert, assign, keys, bytes_eq}
use rune_old.Numbers.{format_unsigned}
use rune_old.Strings.{trim}

abbrev pub ValueMap : Type 0
ValueMap = List (Bytes × Bytes)

pub record IniReader : Type 0 where
  pub section_map : List (Bytes × ValueMap)
  pub errors : Bytes

-- `io::read_string`: the content, or the message of the error.
pub data ReadResult : Type 0 where
  expected : Bytes → ReadResult
  unexpected : Bytes → ReadResult

unfoldable pub read_string : (Bytes → Option Bytes) → Bytes → ReadResult
read_string files filename = elim (files filename) [
  | some content ↦ expected content
  | none ↦ unexpected (codes "Failed to open file: " ++ filename)
]

-- The local variables of `parse_content`, and the reader.
pub record Parsing : Type 0 where
  pub line_index : ℕ
  pub section : Bytes
  pub reader : IniReader

-- A string that starts at `content.data()` ends at the first NUL byte.
unfoldable pub c_string : Bytes → Bytes
c_string [] = []
c_string (c ∷ cs) = if c == 0 then [] else c ∷ c_string cs

push_byte : ℕ → List Bytes → List Bytes
push_byte c [] = (c ∷ []) ∷ []
push_byte c (l ∷ ls) = (c ∷ l) ∷ ls

-- What the calls of `std::getline` return in turn: no line is behind the last line feed.
unfoldable pub lines : Bytes → List Bytes
unfolding push_byte
lines [] = []
lines (c ∷ cs) = if c == b'\n' then [] ∷ lines cs else push_byte c (lines cs)

unfoldable pub is_empty : Bytes → Bool
is_empty [] = true
is_empty (_ ∷ _) = false

unfoldable pub starts_with : ℕ → Bytes → Bool
starts_with b [] = false
starts_with b (c ∷ cs) = c == b

unfoldable pub ends_with : ℕ → Bytes → Bool
ends_with b [] = false
ends_with b (c ∷ []) = c == b
ends_with b (_ ∷ c ∷ cs) = ends_with b (c ∷ cs)

-- The position of the first byte `b`; `contains` is whether there is one.
unfoldable pub index_of : ℕ → Bytes → Option ℕ
index_of b [] = none
index_of b (c ∷ cs) =
    if c == b then some 0 else elim (index_of b cs) [ some i ↦ some (suc i) | none ↦ none ]

unfoldable pub substr : ℕ → ℕ → Bytes → Bytes
substr start count s = take count (drop start s)

unfoldable pub append_error : Bytes → Parsing → Parsing
append_error message p = record p {
  reader = record (p.reader) {
    errors = p.reader.errors ++ (codes "line " ++ (format_unsigned p.line_index ++ message));
  };
}

-- `m_sectionMap[section][key] = value`
unfoldable pub set_value : Bytes → Bytes → Bytes → IniReader → IniReader
set_value section key value r = record r {
  section_map = upsert section [] (assign key value) r.section_map;
}

-- The part of the loop's body behind the test for a comment, on the trimmed line.
unfoldable pub parse_statement : Bytes → Parsing → Parsing
parse_statement line p =
    if starts_with b'[' line
    then (if not (ends_with b']' line)
        then append_error (codes ": line does not end with ']'.\n") p
        else record p { section = substr 1 (length line - 2) line })
    else elim (index_of b'=' line) [
      | some delimiter ↦
          let key = trim (substr 0 delimiter line) in
          let value = trim (substr (delimiter + 1) (length line - delimiter) line) in
          record p { reader = set_value p.section key value p.reader }
      | none ↦ append_error (codes ": invalid line.\n") p
    ]

-- The body of the loop. The index is a 32-bit number.
unfoldable pub parse_line : Bytes → Parsing → Parsing
parse_line raw p =
    let counted = record p { line_index = (p.line_index + 1) % 2 ^ 32 } in
    let line = trim raw in
    if is_empty line || starts_with b';' line then counted else parse_statement line counted

unfoldable pub parse_lines : List Bytes → Parsing → Parsing
parse_lines [] p = p
parse_lines (l ∷ ls) p = parse_lines ls (parse_line l p)

unfoldable pub parse_content : Bytes → IniReader → IniReader
unfolding parse_lines lines c_string
parse_content content r =
    let begin : Parsing = record { line_index = 0; section = []; reader = r } in
    let end = parse_lines (lines (c_string content)) begin in end.reader

unfoldable pub parse : (Bytes → Option Bytes) → Bytes → IniReader → IniReader
unfolding read_string parse_content
parse files filename r =
    let cleared : IniReader = record { section_map = []; errors = [] } in
    elim (read_string files filename) [
      | expected content ↦ parse_content content cleared
      | unexpected _ ↦ record cleared { errors = codes "Failed to read INI file: " ++ filename }
    ]

unfoldable pub get_errors : IniReader → Bytes
get_errors r = r.errors

-- The order in which an unordered map is walked is a parameter.
module _ (order : List Bytes → List Bytes) where
  unfoldable pub get_sections : IniReader → List Bytes
  unfolding keys
  get_sections r = order (keys r.section_map)

  unfoldable pub get_keys : Bytes → IniReader → Option (List Bytes)
  unfolding keys
  get_keys section r = elim (find section r.section_map) [
    | some values ↦ some (order (keys values))
    | none ↦ none
  ]

unfoldable pub get_value : Bytes → Bytes → IniReader → Option Bytes
get_value section key r = elim (find section r.section_map) [
  | some values ↦ find key values
  | none ↦ none
]
