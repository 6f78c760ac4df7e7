-- ===== src/Entity/Rate/RoundTrip.antt =====
-- `parse_rate` and the texts that it reads again: its own print, and the print of the database.
use fx_quotes.Prelude.{
  ℕ, ◌+◌, ◌-◌, ◌≤◌, ◌≡◌, refl, false, [], ◌∷◌, ◌++◌, Option, none, some, ok, arith, All, replicate,
  length, append-nil,
}
use fx_quotes.Text.{Text, is_empty, trim_space, count, split_two}
use fx_quotes.Text.Digits.{
  IsPlain, trim_space-plain, contains_any-plain, count-digits, count-point, split_two-digits,
  split_two-point, digits-IsPlain, point-IsPlain,
}
use fx_quotes.Entity.Rate.{
  Rate, or_zero, or_empty, trim_left_zeros, trim_right_zeros, parse_digits, parse_trimmed,
  parse_rate,
}
use fx_quotes.Entity.Rate.Canonical.{
  IsCanonical, decimal_text, parse_digits-IsCanonical, parse_digits-padded, padded-IsDigit,
}

pub parse_rate_lem : (s : Text) → parse_rate s ≡ parse_trimmed (trim_space s)
unfolding parse_rate
parse_rate_lem s = refl

parse_trimmed-parts :
    (s i : Text) (g : Option Text)
    → is_empty s ≡ false
    → All IsPlain s
    → count s b'.' ≤ 1
    → split_two b'.' s ≡ (i, g)
    → parse_trimmed s ≡ parse_digits (or_zero i) (or_empty g)
unfolding parse_trimmed
parse_trimmed-parts s i g written plain once parts =
    rw (parts, written, contains_any-plain s plain) (ground arith)

or_zero-written : (s t : Text) → is_empty s ≡ false → (or_zero s ≡ s) × (is_empty (s ++ t) ≡ false)
or_zero-written [] t h = cc
or_zero-written (c ∷ s) t h = (refl, refl)

-- A canonical decimal with zeros behind its fraction, as the database prints it.
parse_rate-point :
    (i f : Text) (k : ℕ)
    → IsCanonical i f
    → length f + k ≤ 15
    → parse_rate (i ++ b'.' ∷ (f ++ replicate k b'0')) ≡ ok (record { decimal = decimal_text i f })
parse_rate-point i f k v fits =
    let g = f ++ replicate k b'0' in
    let digits = padded-IsDigit f k v.fraction_digits in
    let plain = point-IsPlain i g v.integer_digits digits in
    let (same, written) = or_zero-written i (b'.' ∷ g) v.written in
    rw
      (
        parse_rate_lem,
        trim_space-plain _ plain,
        parse_trimmed-parts _ i (some g) written plain
            (omega (arith, count-point i g v.integer_digits digits))
            (split_two-point i g v.integer_digits),
        same,
      )
      (parse_digits-padded i f k v fits)

parse_rate-integer : (i : Text) → IsCanonical i [] → parse_rate i ≡ ok (record { decimal = i })
parse_rate-integer i v =
    let plain = digits-IsPlain i v.integer_digits in
    rw
      (
        parse_rate_lem,
        trim_space-plain _ plain,
        parse_trimmed-parts i i none v.written plain
            (omega (arith, count-digits i v.integer_digits)) (split_two-digits i v.integer_digits),
        (or_zero-written i [] v.written).0,
      )
      (parse_digits-padded i [] 0 v (omega arith))

-- A canonical decimal reads as itself.
pub parse_rate-decimal :
    (i f : Text)
    → IsCanonical i f
    → parse_rate (decimal_text i f) ≡ ok (record { decimal = decimal_text i f })
parse_rate-decimal i [] v = parse_rate-integer i v
parse_rate-decimal i (c ∷ f) v =
    rw (append-nil) at (parse_rate-point i (c ∷ f) 0 v (omega (arith, v.fraction_fits)))

-- The digits that `parse_rate` works on.
abbrev pub integer_of : Text → Text
integer_of s = or_zero (split_two b'.' (trim_space s)).0

abbrev pub fraction_of : Text → Text
fraction_of s = or_empty (split_two b'.' (trim_space s)).1

parse_trimmed-digits :
    (s : Text) {r : Rate}
    → parse_trimmed s ≡ ok r
    → parse_digits (or_zero (split_two b'.' s).0) (or_empty (split_two b'.' s).1) ≡ ok r
unfolding parse_trimmed
parse_trimmed-digits s h = ground arith

pub parse_rate-digits :
    (s : Text) {r : Rate} → parse_rate s ≡ ok r → parse_digits (integer_of s) (fraction_of s) ≡ ok r
parse_rate-digits s h = parse_trimmed-digits (trim_space s) (rw parse_rate_lem at h)

-- Whatever text `parse_rate` accepts, the decimal that it returns is canonical.
pub parse_rate-IsCanonical :
    (s : Text) {r : Rate}
    → parse_rate s ≡ ok r
    → (i : Text) × (f : Text) × IsCanonical i f × (r.decimal ≡ decimal_text i f)
parse_rate-IsCanonical s h =
    let (v, text) =
      parse_digits-IsCanonical (integer_of s) (fraction_of s) (parse_rate-digits s h) in
    (or_zero (trim_left_zeros (integer_of s)), trim_right_zeros (fraction_of s), v, text)

-- A returned rate reads back from its print as the same rate.
pub parse_rate-print : (s : Text) {r : Rate} → parse_rate s ≡ ok r → parse_rate r.decimal ≡ ok r
parse_rate-print s {r} h =
    let (i, f, v, text) = parse_rate-IsCanonical s h in
    rw text (ground (arith, parse_rate-decimal i f v))

-- The print of a NUMERIC(30,15) column: the integer digits, the point, and 15 fraction digits.
-- `numeric` is PostgreSQL's cast to that type and back to text.
abbrev pub PrintsNumeric : (Text → Option Text) → Type 0
PrintsNumeric numeric =
    (i f : Text)
    → IsCanonical i f
    → numeric (decimal_text i f) ≡ some (i ++ b'.' ∷ (f ++ replicate (15 - length f) b'0'))

-- A rate that the program accepts is written to the database without an error, and the text that
-- the database prints for it reads back as the same rate.
pub parse_rate-numeric :
    (numeric : Text → Option Text)
    → PrintsNumeric numeric
    → (s : Text) {r : Rate} → parse_rate s ≡ ok r
    → (t : Text) × (numeric r.decimal ≡ some t) × (parse_rate t ≡ ok r)
parse_rate-numeric numeric prints s {r} h =
    let (i, f, v, text) = parse_rate-IsCanonical s h in
    (
      i ++ b'.' ∷ (f ++ replicate (15 - length f) b'0'),
      rw text (prints i f v),
      ground (arith, parse_rate-point i f (15 - length f) v (omega (arith, v.fraction_fits))),
    )
