-- ===== src/Entity/Rate/Canonical.antt =====
-- The canonical decimals: what `parse_rate` returns, and how they are read again.
use fx_quotes.Prelude.{
  ℕ, ◌+◌, ◌≤◌, ◌≡◌, refl, true, false, not, ◌&&◌, [], ◌∷◌, ◌++◌, ok, arith, All, replicate, length,
  All-append, All-replicate, length-append, length-replicate, if◌then◌else◌,
}
use fx_quotes.Text.{Text, is_empty, text_eq, trim_left_func}
use fx_quotes.Text.Digits.{
  IsDigit, trim_left_func-All, trim_right_func-All, length-trim_left_func, length-trim_right_func,
  trim_left_func_twice, trim_right_func_twice, trim_right_func-padded,
}
use fx_quotes.Entity.Rate.{
  Rate, only_digits, all_digits, is_zero_digit, zero_text, or_zero, trim_left_zeros,
  trim_right_zeros, finish_rate, parse_digits,
}

only_digits-IsDigit : (s : Text) → only_digits s ≡ true → All IsDigit s
unfolding only_digits
only_digits-IsDigit [] h = tt
only_digits-IsDigit (c ∷ s) h = ground (arith, only_digits-IsDigit s)

IsDigit-only_digits : (s : Text) → All IsDigit s → only_digits s ≡ true
unfolding only_digits
IsDigit-only_digits [] h = refl
IsDigit-only_digits (c ∷ s) h = ground (arith, IsDigit-only_digits s)

-- The text of an integer part and a fraction.
abbrev pub decimal_text : Text → Text → Text
decimal_text i f = if is_empty f then i else i ++ b'.' ∷ f

-- At most 15 digits on each side, no zero in front but a single one, none behind, and not zero.
pub record IsCanonical (i f : Text) : Type 0 where
  pub integer_digits : All IsDigit i
  pub fraction_digits : All IsDigit f
  pub written : is_empty i ≡ false
  pub integer_fits : length i ≤ 15
  pub fraction_fits : length f ≤ 15
  pub no_leading_zero : or_zero (trim_left_zeros i) ≡ i
  pub no_trailing_zero : trim_right_zeros f ≡ f
  pub positive : (text_eq i zero_text && is_empty f) ≡ false

all_digits-IsDigit : (s : Text) → all_digits s ≡ true → (is_empty s ≡ false) × All IsDigit s
unfolding all_digits
all_digits-IsDigit s h = ground (arith, only_digits-IsDigit s)

IsDigit-all_digits : (s : Text) → is_empty s ≡ false → All IsDigit s → all_digits s ≡ true
unfolding all_digits
IsDigit-all_digits s e h = ground (arith, IsDigit-only_digits s h)

-- The test of the fraction, which may be empty.
fraction_test : (s : Text) → All IsDigit s → (not (is_empty s) && not (all_digits s)) ≡ false
fraction_test [] h = refl
fraction_test (c ∷ s) h = ground (arith, IsDigit-all_digits (c ∷ s) refl h)

pub finish_rate-canonical :
    (i f : Text) → IsCanonical i f → finish_rate i f ≡ ok (record { decimal = decimal_text i f })
unfolding finish_rate
finish_rate-canonical i f v = ground arith

pub padded-IsDigit : (f : Text) (k : ℕ) → All IsDigit f → All IsDigit (f ++ replicate k b'0')
padded-IsDigit f k h =
    All-append IsDigit f (replicate k b'0') h (All-replicate IsDigit k b'0' (omega arith))

pub parse_digits-padded :
    (i f : Text) (k : ℕ)
    → IsCanonical i f
    → length f + k ≤ 15
    → parse_digits i (f ++ replicate k b'0') ≡ ok (record { decimal = decimal_text i f })
unfolding parse_digits
parse_digits-padded i f k v fits =
    let g = f ++ replicate k b'0' in
    rw
      (
        IsDigit-all_digits i v.written v.integer_digits,
        fraction_test g (padded-IsDigit f k v.fraction_digits),
        trim_right_func-padded is_zero_digit f k b'0' refl,
        v.no_leading_zero,
        v.no_trailing_zero,
      )
      (ground (
        arith,
        finish_rate-canonical i f v,
        length-append f (replicate k b'0'),
        length-replicate {A = ℕ} k b'0',
      ))

fraction_test-IsDigit :
    (s : Text) → (not (is_empty s) && not (all_digits s)) ≡ false → All IsDigit s
fraction_test-IsDigit [] h = tt
fraction_test-IsDigit (c ∷ s) h = ground (arith, all_digits-IsDigit (c ∷ s))

or_zero-trimmed :
    (s : Text) → trim_left_zeros s ≡ s → or_zero (trim_left_zeros (or_zero s)) ≡ or_zero s
unfolding trim_left_func
or_zero-trimmed [] h = refl
or_zero-trimmed (c ∷ s) h = ground arith

or_zero-digits :
    (s : Text)
    → All IsDigit s
    → length s ≤ 15
    → All IsDigit (or_zero s) × (length (or_zero s) ≤ 15) × (is_empty (or_zero s) ≡ false)
or_zero-digits [] h fits = ground arith
or_zero-digits (c ∷ s) h fits = (h, fits, refl)

-- What the tests of `parse_digits` establish.
parse_digits-tests :
    (i0 f0 : Text) {r : Rate}
    → parse_digits i0 f0 ≡ ok r
    → (all_digits i0 ≡ true)
      × ((not (is_empty f0) && not (all_digits f0)) ≡ false)
      × (length i0 ≤ 15)
      × (length f0 ≤ 15)
      × (finish_rate (or_zero (trim_left_zeros i0)) (trim_right_zeros f0) ≡ ok r)
unfolding parse_digits
parse_digits-tests i0 f0 h = ground arith

finish_rate-tests :
    (i f : Text) {r : Rate}
    → finish_rate i f ≡ ok r
    → ((text_eq i zero_text && is_empty f) ≡ false) × (r.decimal ≡ decimal_text i f)
unfolding finish_rate
finish_rate-tests i f h = ground arith

pub parse_digits-IsCanonical :
    (i0 f0 : Text) {r : Rate}
    → parse_digits i0 f0 ≡ ok r
    → IsCanonical (or_zero (trim_left_zeros i0)) (trim_right_zeros f0)
      × (r.decimal ≡ decimal_text (or_zero (trim_left_zeros i0)) (trim_right_zeros f0))
parse_digits-IsCanonical i0 f0 h =
    let (di, df, li, lf, done) = parse_digits-tests i0 f0 h in
    let ti = trim_left_zeros i0 in
    let tf = trim_right_zeros f0 in
    let (positive, text) = finish_rate-tests (or_zero ti) tf done in
    let digits = trim_left_func-All is_zero_digit IsDigit i0 (all_digits-IsDigit i0 di).1 in
    let short = length-trim_left_func is_zero_digit i0 in
    let (dz, lz, wz) = or_zero-digits ti digits (omega arith) in
    (
      record {
        integer_digits = dz;
        fraction_digits =
            trim_right_func-All is_zero_digit IsDigit f0 (fraction_test-IsDigit f0 df);
        written = wz;
        integer_fits = lz;
        fraction_fits = omega (arith, length-trim_right_func is_zero_digit f0);
        no_leading_zero = or_zero-trimmed ti (trim_left_func_twice is_zero_digit i0);
        no_trailing_zero = trim_right_func_twice is_zero_digit f0;
        positive = positive;
      },
      text,
    )
