-- ===== src/Numbers.antt =====
-- The conversions between numbers and text that the source takes from the C++ library:
-- `std::format("{}")` and `std::to_string` of integers, and `std::stoi`.
pub mod Int
pub mod RoundTrip
mod Tests
use rune_old.Base.{
  ℕ, zero, suc, ◌+◌, ◌-◌, ◌*◌, ◌/◌, ◌%◌, Bool, true, false, ◌&&◌, ◌||◌, List, [], ◌∷◌, ◌++◌, ◌==◌,
  ltb, leb, if◌then◌else◌, Bytes, Outcome, ok, fault, invalid_argument, value_out_of_range,
}
use rune_old.Strings.{is_space}
use rune_old.Numbers.Int.{ℤ, pos, negsuc}

-- The decimal digits of `n`. Every round divides by ten, so `n + 1` rounds are enough.
unfoldable pub digits : ℕ → ℕ → Bytes
digits zero n = []
digits (suc f) n =
    let rest = digits f (n / 10) in if ltb n 10 then (48 + n) ∷ [] else rest ++ (48 + n % 10) ∷ []

unfoldable pub format_unsigned : ℕ → Bytes
unfolding digits
format_unsigned n = digits (suc n) n

unfoldable pub to_string : ℤ → Bytes
unfolding format_unsigned
to_string (pos n) = format_unsigned n
to_string (negsuc n) = b'-' ∷ format_unsigned (suc n)

unfoldable pub is_digit : ℕ → Bool
is_digit c = leb 48 c && leb c 57

-- The value of the digits at the front of a text, in front of which `acc` has been read.
unfoldable pub read_digits : ℕ → Bytes → ℕ
unfolding is_digit
read_digits acc [] = acc
read_digits acc (c ∷ cs) =
    let rest = read_digits (acc * 10 + (c - 48)) cs in if is_digit c then rest else acc

unfoldable pub starts_with_digit : Bytes → Bool
unfolding is_digit
starts_with_digit [] = false
starts_with_digit (c ∷ cs) = is_digit c

-- `int` has 32 bits.
abbrev pub int_limit : ℕ
int_limit = 2147483648

-- The value with its sign, if an `int` holds it.
signed : Bool → ℕ → Outcome ℤ
signed false n = if ltb n int_limit then ok (pos n) else fault value_out_of_range
signed true zero = ok (pos 0)
signed true (suc n) = if ltb n int_limit then ok (negsuc n) else fault value_out_of_range

unsigned_part : Bool → Bytes → Outcome ℤ
unsigned_part negative s =
    if starts_with_digit s then signed negative (read_digits 0 s) else fault invalid_argument

-- `std::stoi` in base ten: white space, a sign, and digits up to the first byte that is none.
unfoldable pub stoi : Bytes → Outcome ℤ
unfolding signed unsigned_part starts_with_digit read_digits is_space
stoi [] = fault invalid_argument
stoi (c ∷ cs) =
    if is_space c
    then stoi cs
    else if c == b'-'
    then unsigned_part true cs
    else if c == b'+'
    then unsigned_part false cs
    else unsigned_part false (c ∷ cs)
