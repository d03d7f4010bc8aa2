-- ===== src/Numbers/RoundTrip.antt =====
-- Reading back what was printed.
use rune_old.Base.{
  ℕ, zero, suc, ◌+◌, ◌-◌, ◌*◌, ◌/◌, ◌%◌, ◌<◌, Bool, true, false, ◌≡◌, refl, ◌∙◌, [], ◌∷◌, ◌++◌, ltb,
  lt→ltb, arith, Bytes, Bool-cases, inl, inr, ok,
}
use rune_old.Strings.{is_space}
use rune_old.Numbers.Int.{ℤ, pos, negsuc}
use rune_old.Numbers.{
  digits, format_unsigned, to_string, is_digit, read_digits, starts_with_digit, int_limit, signed,
  unsigned_part, stoi,
}

abbrev AllDigits : Bytes → Type 0
AllDigits [] = Unit
AllDigits (c ∷ cs) = (is_digit c ≡ true) × AllDigits cs

AllDigits-concat : (s : Bytes) (c : ℕ) → AllDigits s → is_digit c ≡ true → AllDigits (s ++ c ∷ [])
AllDigits-concat [] c h k = (k, tt)
AllDigits-concat (x ∷ s) c h k = (h.0, AllDigits-concat s c h.1 k)

digits-AllDigits : (f n : ℕ) → AllDigits (digits f n)
unfolding digits is_digit
digits-AllDigits zero n = tt
digits-AllDigits (suc f) n = elim (Bool-cases (ltb n 10)) [
  | inl small ↦ rw small (ground arith, tt)
  | inr large ↦ rw large (
      AllDigits-concat (digits f (n / 10)) (48 + n % 10) (digits-AllDigits f (n / 10))
        (ground arith))
]

read_digits-concat :
    (s : Bytes) (acc c : ℕ)
    → AllDigits s
    → is_digit c ≡ true
    → read_digits acc (s ++ c ∷ []) ≡ read_digits acc s * 10 + (c - 48)
unfolding read_digits
read_digits-concat [] acc c h k = rw k
read_digits-concat (x ∷ s) acc c h k = rw (h.0, read_digits-concat s (acc * 10 + (x - 48)) c h.1 k)

read_digits-digits : (f n : ℕ) → n < f → read_digits 0 (digits f n) ≡ n
unfolding digits
read_digits-digits zero n h = elim h [ ]
read_digits-digits (suc f) n h = elim (Bool-cases (ltb n 10)) [
  | inl small ↦ rw small (unfold read_digits is_digit in ground arith)
  | inr large ↦ rw large (
      read_digits-concat (digits f (n / 10)) 0 (48 + n % 10) (digits-AllDigits f (n / 10))
        (unfold is_digit in ground arith)
      ∙ rw (read_digits-digits f (n / 10) (ground arith)) (omega arith))
]

starts_with_digit_append :
    (s r : Bytes) → starts_with_digit s ≡ true → starts_with_digit (s ++ r) ≡ true
unfolding starts_with_digit
starts_with_digit_append [] r h = cc
starts_with_digit_append (c ∷ s) r h = h

starts_with_digit-digits : (f n : ℕ) → n < f → starts_with_digit (digits f n) ≡ true
unfolding digits
starts_with_digit-digits zero n h = elim h [ ]
starts_with_digit-digits (suc f) n h = elim (Bool-cases (ltb n 10)) [
  | inl small ↦ rw small (unfold starts_with_digit is_digit in ground arith)
  | inr large ↦ rw large (
      starts_with_digit_append (digits f (n / 10)) _
        (starts_with_digit-digits f (n / 10) (ground arith)))
]

stoi-starts_with_digit : (s : Bytes) → starts_with_digit s ≡ true → stoi s ≡ unsigned_part false s
unfolding stoi starts_with_digit is_digit
stoi-starts_with_digit [] h = cc
stoi-starts_with_digit (c ∷ cs) h = ground arith

unsigned_part-format_unsigned :
    (negative : Bool) (n : ℕ) → unsigned_part negative (format_unsigned n) ≡ signed negative n
unfolding unsigned_part format_unsigned
unsigned_part-format_unsigned negative n =
    rw
      (starts_with_digit-digits (suc n) n (omega arith), read_digits-digits (suc n) n (omega arith))

-- The values of `int`.
abbrev pub IsInt : ℤ → Type 0
IsInt (pos n) = n < int_limit
IsInt (negsuc n) = n < int_limit

signed-IsInt_pos : (n : ℕ) → n < int_limit → signed false n ≡ ok (pos n)
unfolding signed
signed-IsInt_pos n h = rw (lt→ltb n int_limit h)

signed-IsInt_neg : (n : ℕ) → n < int_limit → signed true (suc n) ≡ ok (negsuc n)
unfolding signed
signed-IsInt_neg n h = rw (lt→ltb n int_limit h)

stoi-minus : (s : Bytes) → stoi (b'-' ∷ s) ≡ unsigned_part true s
unfolding stoi is_space
stoi-minus s = refl

-- `std::stoi` reads back what `std::to_string` prints of an `int`.
pub stoi-to_string : (i : ℤ) → IsInt i → stoi (to_string i) ≡ ok i
unfolding to_string
stoi-to_string (pos n) h =
    stoi-starts_with_digit (format_unsigned n)
      (unfold format_unsigned in starts_with_digit-digits (suc n) n (omega arith))
    ∙ unsigned_part-format_unsigned false n
    ∙ signed-IsInt_pos n h
stoi-to_string (negsuc n) h =
    stoi-minus (format_unsigned (suc n))
    ∙ unsigned_part-format_unsigned true (suc n)
    ∙ signed-IsInt_neg n h
