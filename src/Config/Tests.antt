-- ===== src/Config/Tests.antt =====
-- A configuration file with one entry, and access to a configuration of one value.
use rune_old.Base.{
  ◌≡◌, refl, Bool, true, false, Option, none, some, [], ◌∷◌, Bytes, codes, fault, invalid_argument,
  sym, ◌∙◌, if◌then◌else◌, equal, Bool-cases, inl, inr,
}
use mathlib.Core.Option.{some-injective}
use rune_old.Config.{config_key, load_config, get_string, get_int, get_bool}
use rune_old.Config.Access.{get_bool_word}
use rune_old.Config.Load.{get_string-load_config}
use rune_old.Ini.{
  IniReader, is_empty, starts_with, ends_with, index_of, substr, set_value, parse_statement,
  parse_line, get_value, parse,
}
use rune_old.Maps.{find, upsert, assign, bytes_eq}
use rune_old.Numbers.Int.{pos}
use rune_old.Strings.{is_space, left_trim, right_trim, trim}
use rune_old.Numbers.{is_digit}

abbrev files : Bytes → Option Bytes
files _ = some (codes "[a]\nb = 1\n")

abbrev reader : IniReader
reader = record { section_map = (codes "a", (codes "b", codes "1") ∷ []) ∷ []; errors = [] }

parse-files : parse files [] (record { section_map = []; errors = [] }) ≡ reader
unfolding parse parse_line is_empty trim right_trim left_trim is_space starts_with parse_statement
    index_of set_value upsert ends_with substr assign
parse-files = refl

-- The two tests of the reader's two maps.
in_reader :
    (section key : Bytes)
    → get_value section key reader ≡ (
        if equal (codes "a") section
        then (if equal (codes "b") key then some (codes "1") else none)
        else none)
unfolding get_value find equal
in_reader section key = elim (Bool-cases (equal (codes "a") section)) [
  | inl s ↦ rw s
  | inr s ↦ rw s
]

get_value-reader : (section key w : Bytes) → get_value section key reader ≡ some w → w ≡ codes "1"
get_value-reader section key w h =
    tested (equal (codes "a") section) (equal (codes "b") key) (sym (in_reader section key) ∙ h)
  where
    tested :
        (s k : Bool)
        → (if s then (if k then some (codes "1") else none) else none) ≡ some w
        → w ≡ codes "1"
    tested true true e = sym (some-injective (codes "1") w e)
    tested true false e = cc
    tested false k e = cc

get_string-load_config_example :
    get_string (load_config (λ xs. xs) files [] []) (config_key (codes "a") (codes "b")) []
    ≡ codes "1"
get_string-load_config_example =
    get_string-load_config (λ xs. xs) files [] (codes "a") (codes "b") (codes "1") [] []
      (λ xs x. (λ h. h, λ h. h)) (rw parse-files (unfold get_value find equal in refl))
      (rw parse-files (λ section key w h _. get_value-reader section key w h))

get_bool_word_example :
    (get_bool (assign (codes "vsync") (codes "true") []) (codes "vsync") false
      ≡ fault invalid_argument)
    × (get_int (assign (codes "vsync") (codes "true") []) (codes "vsync") (pos 0)
        ≡ fault invalid_argument)
get_bool_word_example =
    get_bool_word [] (codes "vsync") (codes "true") false (pos 0)
      (unfold is_space is_digit in (refl, refl, refl, refl))
