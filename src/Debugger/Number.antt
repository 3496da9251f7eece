-- ===== src/Debugger/Number.antt =====
-- subscription_consumer.cpp, `parsePositive`, with the C library's `strtol` at base 10.
use azure_uamqp_php.Prelude.{
  ℕ, ◌+◌, ◌-◌, ◌*◌, ◌≤◌, ◌<◌, ◌^◌, ◌≡◌, refl, Bool, true, false, not, ◌&&◌, ◌||◌, Option, none,
  some, [], ◌∷◌, Text, ltb, leb, ◌==◌, if◌then◌else◌, Result, ok, err, arith, All, is_empty,
}
use azure_uamqp_php.Prelude.Decimal.{decimal, value-decimal, decimal_digits, IsDigit, value_onto}
use azure_uamqp_php.Debugger.Percent.{CommandError, not_positive}

abbrev is_digit : ℕ → Bool
is_digit c = leb b'0' c && leb c b'9'

-- `isspace`: tab, line feed, vertical tab, form feed, carriage return, space.
abbrev is_space : ℕ → Bool
is_space c = c == b' ' || (leb 9 c && leb c 13)

unfoldable pub skip_spaces : Text → Text
skip_spaces [] = []
skip_spaces (c ∷ t) = if is_space c then skip_spaces t else c ∷ t

-- The value of the digits in front, and what follows them.
unfoldable pub scan_digits : ℕ → Text → ℕ × Text
scan_digits acc [] = (acc, [])
scan_digits acc (c ∷ t) =
    let rest = scan_digits (acc * 10 + (c - b'0')) t in if is_digit c then rest else (acc, c ∷ t)

-- A magnitude that `long` does not hold is cut to the largest one.
abbrev scanned : Bool → ℕ × Text → Bool × ℕ × Text
scanned negative (n, rest) = (negative, (if ltb n (2 ^ 63) then n else 2 ^ 63 - 1), rest)

-- A sign, then at least one digit. `none` is `end == value.c_str()`.
unfoldable pub scan_number : Bool → Text → Option (Bool × ℕ × Text)
unfolding scan_digits
scan_number negative [] = none
scan_number negative (c ∷ t) =
    if is_digit c then some (scanned negative (scan_digits 0 (c ∷ t))) else none

unfoldable pub scan_sign : Text → Option (Bool × ℕ × Text)
unfolding scan_number
scan_sign [] = none
scan_sign (c ∷ t) =
    if c == b'-'
    then scan_number true t
    else if c == b'+'
    then scan_number false t
    else scan_number false (c ∷ t)

unfoldable pub strtol : Text → Option (Bool × ℕ × Text)
unfolding skip_spaces scan_sign
strtol t = scan_sign (skip_spaces t)

-- `*end != '\0'`: a text ends with a NUL, and may hold one.
abbrev at_end : Text → Bool
at_end [] = true
at_end (c ∷ _) = c == 0

-- A negative number or zero is `parsed <= 0`.
unfoldable pub parse_positive : Text → Result CommandError ℕ
parse_positive value = elim (strtol value) [
  | none ↦ err not_positive
  | some (negative, n, rest) ↦
      if is_empty value || not (at_end rest) || negative || n == 0 || ltb 86400 n
      then err not_positive
      else ok n
]

-- A number that is accepted lies between 1 and 86400, the seconds of a day.
pub parse_positive_bounds : (t : Text) (n : ℕ) → parse_positive t ≡ ok n → (1 ≤ n) × (n ≤ 86400)
unfolding parse_positive
parse_positive_bounds t n e = ground arith

scan_digits-All : (acc : ℕ) (t : Text) → All IsDigit t → scan_digits acc t ≡ (value_onto acc t, [])
unfolding scan_digits
scan_digits-All acc [] d = refl
scan_digits-All acc (c ∷ t) d = ground (arith, scan_digits-All (acc * 10 + (c - b'0')) t d.1)

-- A run of digits is read as the number that it stands for.
strtol-digits :
    (c : ℕ) (t : Text)
    → All IsDigit (c ∷ t)
    → value_onto 0 (c ∷ t) < 2 ^ 63
    → strtol (c ∷ t) ≡ some (false, value_onto 0 (c ∷ t), [])
unfolding strtol scan_sign scan_number skip_spaces
strtol-digits c t d h = ground (arith, scan_digits-All 0 (c ∷ t) d)

digits-parse_positive :
    (t : Text) (n : ℕ)
    → All IsDigit t
    → value_onto 0 t ≡ n
    → 1 ≤ n
    → n ≤ 86400
    → parse_positive t ≡ ok n
unfolding parse_positive
digits-parse_positive [] n d e l h = absurd (omega arith)
digits-parse_positive (c ∷ t) n d e l h = ground (arith, strtol-digits c t d)

-- Each number from 1 to 86400 is accepted in decimal, and read as that number.
pub parse_positive-decimal : (n : ℕ) → 1 ≤ n → n ≤ 86400 → parse_positive (decimal n) ≡ ok n
parse_positive-decimal n l h =
    digits-parse_positive (decimal n) n (decimal_digits n) (value-decimal n) l h
