-- ===== src/App/Config/Number.antt =====
-- `strconv.Itoa` and `strconv.Atoi`, on an `int` of 64 bits.
use fx_quotes.Prelude.{
  ℕ, zero, suc, ◌+◌, ◌-◌, ◌*◌, ◌/◌, ◌%◌, ◌^◌, [], ◌∷◌, Option, none, some, ltb, ◌==◌, if◌then◌else◌,
}
use fx_quotes.Prelude.Int.{ℤ, pos, negsuc}
use fx_quotes.Text.{Text, is_digit}

abbrev pub write_digits : ℕ → ℕ → Text → Text
write_digits zero n behind = behind
write_digits (suc fuel) n behind =
    let rest = write_digits fuel (n / 10) ((b'0' + n % 10) ∷ behind) in
    if ltb n 10 then (b'0' + n) ∷ behind else rest

-- `strconv.Itoa` of a number below 10 ^ 20.
unfoldable pub itoa : ℕ → Text
itoa n = write_digits 20 n []

-- The number that the digits write behind `n`.
abbrev pub read_digits : ℕ → Text → Option ℕ
read_digits n [] = some n
read_digits n (c ∷ s) =
    let rest = read_digits (n * 10 + (c - b'0')) s in if is_digit c then rest else none

abbrev unsigned : Text → Option ℕ
unsigned [] = none
unsigned (c ∷ s) = read_digits 0 (c ∷ s)

abbrev non_negative : ℕ → Option ℤ
non_negative n = if ltb n (2 ^ 63) then some (pos n) else none

abbrev negative : ℕ → Option ℤ
negative zero = some (pos zero)
negative (suc n) = if ltb n (2 ^ 63) then some (negsuc n) else none

abbrev with_sign : (ℕ → Option ℤ) → Option ℕ → Option ℤ
with_sign f none = none
with_sign f (some n) = f n

-- `strconv.Atoi`; none where it gives an error.
unfoldable pub atoi : Text → Option ℤ
atoi [] = none
atoi (c ∷ s) =
    if c == b'-'
    then with_sign negative (unsigned s)
    else with_sign non_negative (unsigned (if c == b'+' then s else c ∷ s))
