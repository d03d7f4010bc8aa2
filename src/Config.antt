-- ===== src/Config.antt =====
-- Rune/src/core/config.cpp: the configuration's values, loaded from an INI file, and typed access
-- to them. `get_float` rests on `std::stof` and floats, and is left out; `write_config` does nothing.
pub mod Load
pub mod Access
mod Tests
use rune_old.Base.{
  Bool, true, false, not, Option, none, some, List, [], ◌∷◌, ◌++◌, ◌==◌, if◌then◌else◌, Bytes,
  codes, Outcome, ok, ◌>>=◌, get_value_or,
}
use rune_old.Ini.{IniReader, get_sections, get_keys, get_value, parse, is_empty}
use rune_old.Maps.{find, assign, bytes_eq}
use rune_old.Numbers.Int.{ℤ, pos, negsuc}
use rune_old.Numbers.{to_string, stoi}

-- `g_configValues`
abbrev pub Values : Type 0
Values = List (Bytes × Bytes)

unfoldable pub config_key : Bytes → Bytes → Bytes
unfolding is_empty
config_key section key = if is_empty section then key else section ++ b'.' ∷ key

module _ (order : List Bytes → List Bytes) where
  -- The inner loop, over the keys of a section.
  unfoldable pub load_keys : IniReader → Bytes → List Bytes → Values → Values
  load_keys reader section [] values = values
  load_keys reader section (key ∷ ks) values =
      load_keys reader section ks
        (assign (config_key section key) (get_value_or (get_value section key reader) []) values)

  unfoldable pub load_sections : IniReader → List Bytes → Values → Values
  load_sections reader [] values = values
  load_sections reader (section ∷ ss) values =
      load_sections reader ss
        (load_keys reader section (get_value_or (get_keys order section reader) []) values)

  -- What is logged has no effect on the values.
  unfoldable pub load_config : (Bytes → Option Bytes) → Bytes → Values → Values
  load_config files filename values =
      let reader = parse files filename (record { section_map = []; errors = [] }) in
      load_sections reader (get_sections order reader) values

unfoldable pub get_string : Values → Bytes → Bytes → Bytes
get_string values key default_value = elim (find key values) [
  | some value ↦ value
  | none ↦ default_value
]

unfoldable pub get_int : Values → Bytes → ℤ → Outcome ℤ
unfolding get_string
get_int values key default_value = stoi (get_string values key (to_string default_value))

-- A `bool` is printed as the number 0 or 1, and a number other than 0 is true.
of_bool : Bool → ℤ
of_bool true = pos 1
of_bool false = pos 0

to_bool : ℤ → Bool
to_bool (pos n) = not (n == 0)
to_bool (negsuc n) = true

unfoldable pub get_bool : Values → Bytes → Bool → Outcome Bool
unfolding get_string of_bool to_bool
get_bool values key default_value = do
  i ← stoi (get_string values key (to_string (of_bool default_value)))
  ok (to_bool i)

-- `std::to_string` and `std::stof` on floats are parameters.
unfoldable pub get_float :
    {F : Type 0} → (F → Bytes) → (Bytes → Outcome F) → Values → Bytes → F → Outcome F
unfolding get_string
get_float print stof values key default_value = stof (get_string values key (print default_value))

-- Nothing is written; `files` are the files.
abbrev pub write_config : {A : Type 0} → Bytes → A → A
write_config filename files = files
