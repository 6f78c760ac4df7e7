-- ===== src/Entity/Rate.antt =====
-- internal/entity/rate.go.
pub mod Canonical
pub mod RoundTrip
pub mod Value
use fx_quotes.Prelude.{
  ℕ, zero, suc, Bool, true, false, not, ◌&&◌, ◌||◌, List, [], ◌∷◌, ◌++◌, Option, none, some, Result,
  ok, err, length, ltb, leb, ◌==◌, if◌then◌else◌, ◌≡◌, refl,
}
use fx_quotes.Text.{
  Text, codes, text_eq, is_empty, is_digit, trim_space, trim_left_func, trim_right_func,
  contains_any, count, split_two,
}

pub record Rate : Type 0 where
  pub decimal : Text

pub data RateError : Type 0 where
  not_plain_decimal too_precise not_positive : RateError

-- The loop of `allDigits`.
unfoldable pub only_digits : Text → Bool
only_digits [] = true
only_digits (c ∷ s) = is_digit c && only_digits s

unfoldable pub all_digits : Text → Bool
all_digits value = not (is_empty value) && only_digits value

abbrev pub is_zero_digit : ℕ → Bool
is_zero_digit c = c == b'0'

abbrev pub zero_text : Text
zero_text = b'0' ∷ []

-- `if x == "" { x = "0" }`.
abbrev pub or_zero : Text → Text
or_zero [] = zero_text
or_zero (c ∷ s) = c ∷ s

abbrev pub or_empty : Option Text → Text
or_empty none = []
or_empty (some s) = s

-- `strings.TrimLeft(s, "0")` and `strings.TrimRight(s, "0")`.
abbrev pub trim_left_zeros : Text → Text
trim_left_zeros s = trim_left_func is_zero_digit s

abbrev pub trim_right_zeros : Text → Text
trim_right_zeros s = trim_right_func is_zero_digit s

-- The last three tests of `ParseRate`, on the trimmed digits.
unfoldable pub finish_rate : Text → Text → Result RateError Rate
finish_rate integer fraction =
    if text_eq integer zero_text && is_empty fraction
    then err not_positive
    else if is_empty fraction
    then ok (record { decimal = integer })
    else ok (record { decimal = integer ++ b'.' ∷ fraction })

-- `ParseRate` from the split on: the integer digits, and the fraction digits.
unfoldable pub parse_digits : Text → Text → Result RateError Rate
parse_digits integer fraction =
    if not (all_digits integer) || (not (is_empty fraction) && not (all_digits fraction))
    then err not_plain_decimal
    else if ltb 15 (length integer) || ltb 15 (length fraction)
    then err too_precise
    else finish_rate (or_zero (trim_left_zeros integer)) (trim_right_zeros fraction)

unfoldable pub parse_trimmed : Text → Result RateError Rate
parse_trimmed value =
    if is_empty value || contains_any value (codes "eE+-") || ltb 1 (count value b'.')
    then err not_plain_decimal
    else parse_digits (or_zero (split_two b'.' value).0) (or_empty (split_two b'.' value).1)

unfoldable pub parse_rate : Text → Result RateError Rate
unfolding parse_trimmed parse_digits finish_rate all_digits only_digits text_eq trim_left_func
    trim_right_func contains_any count split_two trim_space
parse_rate value = parse_trimmed (trim_space value)

zeros_trimmed : parse_rate (codes " 00.92340 ") ≡ ok (record { decimal = codes "0.9234" })
unfolding parse_rate
zeros_trimmed = refl

no_integer : parse_rate (codes ".5") ≡ ok (record { decimal = codes "0.5" })
unfolding parse_rate
no_integer = refl

zero_rate : parse_rate (codes "0.000") ≡ err not_positive
unfolding parse_rate
zero_rate = refl

exponent : parse_rate (codes "1e3") ≡ err not_plain_decimal
unfolding parse_rate
exponent = refl

sixteen_digits : parse_rate (codes "1234567890123456") ≡ err too_precise
unfolding parse_rate
sixteen_digits = refl
