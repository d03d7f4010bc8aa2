-- ===== src/Config/Access.antt =====
-- Typed access to the configuration.
use rune_old.Base.{
  Bool, true, false, ◌≡◌, refl, none, Bytes, ok, fault, invalid_argument, ◌==◌, [], ◌∷◌, arith,
  equal_refl,
}
use rune_old.Config.{Values, get_string, get_int, of_bool, get_bool}
use rune_old.Strings.{is_space}
use rune_old.Maps.{find, assign, bytes_eq}
use rune_old.Maps.Laws.{find-assign}
use rune_old.Numbers.Int.{ℤ, pos}
use rune_old.Numbers.RoundTrip.{IsInt, stoi-to_string}
use rune_old.Numbers.{to_string, is_digit, stoi}

get_string_missing :
    (values : Values) (key d : Bytes) → find key values ≡ none → get_string values key d ≡ d
unfolding get_string
get_string_missing values key d h = rw (h, get_string)

get_string-assign : (values : Values) (key v d : Bytes) → get_string (assign key v values) key d ≡ v
unfolding get_string
get_string-assign values key v d = rw (find-assign key key v values, equal_refl key, get_string)

-- A key that is not in the configuration has the default value as its value, whatever `int` that is:
-- printing it and reading it back loses nothing.
pub get_int_default :
    (values : Values) (key : Bytes) (default_value : ℤ)
    → find key values ≡ none
    → IsInt default_value
    → get_int values key default_value ≡ ok default_value
unfolding get_int
get_int_default values key d h i =
    rw (get_string_missing values key (to_string d) h) (stoi-to_string d i)

-- An integer that the configuration holds as it is printed is read whatever the default is.
pub get_int-assign :
    (values : Values) (key : Bytes) (i default_value : ℤ)
    → IsInt i
    → get_int (assign key (to_string i) values) key default_value ≡ ok i
unfolding get_int
get_int-assign values key i d h =
    rw (get_string-assign values key (to_string i) (to_string d)) (stoi-to_string i h)

-- A flag that is not in the configuration has the default value as its value.
pub get_bool_default :
    (values : Values) (key : Bytes) (default_value : Bool)
    → find key values ≡ none
    → get_bool values key default_value ≡ ok default_value
unfolding get_bool
get_bool_default values key true h =
    rw (get_string_missing values key (to_string (pos 1)) h, stoi-to_string (pos 1) (omega arith))
get_bool_default values key false h =
    rw (get_string_missing values key (to_string (pos 0)) h, stoi-to_string (pos 0) (omega arith))

-- A text that no number starts with.
abbrev pub IsWord : Bytes → Type 0
IsWord [] = Unit
IsWord (c ∷ cs) =
    (is_space c ≡ false) × (is_digit c ≡ false) × ((c == b'-') ≡ false) × ((c == b'+') ≡ false)

stoi-IsWord : (s : Bytes) → IsWord s → stoi s ≡ fault invalid_argument
unfolding stoi
stoi-IsWord [] h = refl
stoi-IsWord (c ∷ cs) h = ground arith

-- A flag or a number that the configuration spells as a word, `true` and `false` among them, is not
-- read: `std::stoi` throws, whatever the default is.
pub get_bool_word :
    (values : Values) (key word : Bytes) (flag : Bool) (default_value : ℤ)
    → IsWord word
    → (get_bool (assign key word values) key flag ≡ fault invalid_argument)
      × (get_int (assign key word values) key default_value ≡ fault invalid_argument)
unfolding get_bool get_int
get_bool_word values key word flag d h = (
  rw (get_string-assign values key word (to_string (of_bool flag)), stoi-IsWord word h),
  rw (get_string-assign values key word (to_string d), stoi-IsWord word h),
)
