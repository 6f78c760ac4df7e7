-- ===== src/Entity/Rate/Value.antt =====
-- The number that a decimal stands for, in units of 10⁻¹⁵.
use native.Mathlib.Nat.{pow-suc}
use native.Mathlib.Decide.{dec_le}
use fx_quotes.Prelude.{
  ℕ, zero, suc, ◌+◌, ◌-◌, ◌*◌, ◌^◌, ◌≤◌, ◌<◌, ◌≡◌, inl, inr, refl, sym, ◌∙◌, true, false, [], ◌∷◌,
  ok, arith, All, length, Bool-cases,
}
use fx_quotes.Text.{Text, is_empty, text_eq, trim_left_func, trim_right_func}
use fx_quotes.Text.Digits.{IsDigit}
use fx_quotes.Text.Laws.{text_eq_iff}
use fx_quotes.Entity.Rate.{Rate, zero_text, or_zero, trim_left_zeros, trim_right_zeros, parse_rate}
use fx_quotes.Entity.Rate.Canonical.{IsCanonical, decimal_text, parse_digits-IsCanonical}
use fx_quotes.Entity.Rate.RoundTrip.{integer_of, fraction_of, parse_rate-digits}

-- The value of integer digits, and of the fraction digits with `n` places to come.
integer_value : Text → ℕ
integer_value [] = 0
integer_value (c ∷ s) = (c - b'0') * 10 ^ length s + integer_value s

fraction_value : ℕ → Text → ℕ
fraction_value n [] = 0
fraction_value zero (c ∷ s) = 0
fraction_value (suc n) (c ∷ s) = (c - b'0') * 10 ^ n + fraction_value n s

pub amount : Text → Text → ℕ
amount i f = integer_value i * 10 ^ 15 + fraction_value 15 f

pow_pos : (n : ℕ) → 1 ≤ 10 ^ n
pow_pos zero = omega arith
pow_pos (suc n) = omega (arith, pow-suc 10 n, pow_pos n)

pow_mono : (a b : ℕ) → a ≤ b → 10 ^ a ≤ 10 ^ b
pow_mono a zero h = ground arith
pow_mono a (suc b) h = elim (dec_le a b) [
  | yes p ↦ omega (arith, pow-suc 10 b, pow_mono a b p)
  | no p ↦ let e : a ≡ suc b = omega arith in rw e (omega arith)
]

digit_bound : (c p v : ℕ) → IsDigit c → v < p → (c - b'0') * p + v < p * 10
digit_bound c p v h k = grind arith

integer_value_bound : (s : Text) → All IsDigit s → integer_value s < 10 ^ length s
unfolding integer_value
integer_value_bound [] h = omega arith
integer_value_bound (c ∷ s) h = omega (
  arith,
  pow-suc 10 (length s),
  digit_bound c (10 ^ length s) (integer_value s) h.0 (integer_value_bound s h.1),
)

fraction_value_bound : (n : ℕ) (s : Text) → All IsDigit s → fraction_value n s < 10 ^ n
unfolding fraction_value
fraction_value_bound n [] h = omega (arith, pow_pos n)
fraction_value_bound zero (c ∷ s) h = omega arith
fraction_value_bound (suc n) (c ∷ s) h = omega (
  arith,
  pow-suc 10 n,
  digit_bound c (10 ^ n) (fraction_value n s) h.0 (fraction_value_bound n s h.1),
)

integer_value-trim : (s : Text) → integer_value (or_zero (trim_left_zeros s)) ≡ integer_value s
unfolding integer_value trim_left_func
integer_value-trim [] = omega arith
integer_value-trim (c ∷ s) = ground (arith, integer_value-trim s)

fraction_value-empty : (n : ℕ) (s : Text) → trim_right_zeros s ≡ [] → fraction_value n s ≡ 0
unfolding fraction_value trim_right_func
fraction_value-empty n [] h = refl
fraction_value-empty zero (c ∷ s) h = refl
fraction_value-empty (suc n) (c ∷ s) h = ground (arith, fraction_value-empty n s)

fraction_value-trim :
    (n : ℕ) (s : Text) → fraction_value n (trim_right_zeros s) ≡ fraction_value n s
unfolding fraction_value trim_right_func
fraction_value-trim n [] = refl
fraction_value-trim zero (c ∷ s) = ground arith
fraction_value-trim (suc n) (c ∷ s) = ground (arith, fraction_value-trim n s)

-- A digit other than 0 counts.
digit_pos : (c p : ℕ) → (c ≡ b'0' → ⊥) → IsDigit c → 1 ≤ p → 1 ≤ (c - b'0') * p
digit_pos c p h d q = grind arith

integer_value_pos :
    (s : Text) → All IsDigit s → is_empty (trim_left_zeros s) ≡ false → 1 ≤ integer_value s
unfolding integer_value trim_left_func
integer_value_pos [] h e = cc
integer_value_pos (c ∷ s) h e =
    ground (arith, integer_value_pos s h.1, digit_pos c (10 ^ length s), pow_pos (length s))

fraction_value_pos :
    (n : ℕ) (s : Text)
    → All IsDigit s
    → length s ≤ n
    → is_empty (trim_right_zeros s) ≡ false
    → 1 ≤ fraction_value n s
unfolding fraction_value trim_right_func
fraction_value_pos n [] h fits e = cc
fraction_value_pos zero (c ∷ s) h fits e = absurd (omega arith)
fraction_value_pos (suc n) (c ∷ s) h fits e =
    ground (arith, fraction_value_pos n s h.1, digit_pos c (10 ^ n), pow_pos n)

or_zero-empty : (t : Text) → is_empty t ≡ true → or_zero t ≡ zero_text
or_zero-empty [] h = refl
or_zero-empty (c ∷ t) h = cc

-- A canonical integer part other than "0" starts with another digit.
nonzero_integer :
    (i : Text)
    → or_zero (trim_left_zeros i) ≡ i
    → text_eq i zero_text ≡ false
    → is_empty (trim_left_zeros i) ≡ false
nonzero_integer i lead other = elim (Bool-cases (is_empty (trim_left_zeros i))) [
  | inl e ↦ cc ((text_eq_iff i zero_text).1 (sym lead ∙ or_zero-empty _ e))
  | inr e ↦ e
]

pub amount_pos : (i f : Text) → IsCanonical i f → 1 ≤ amount i f
unfolding amount
amount_pos i f v = elim (Bool-cases (is_empty f)) [
  | inl e ↦ omega (
    arith,
    integer_value_pos i v.integer_digits (nonzero_integer i v.no_leading_zero (ground arith)),
  )
  | inr e ↦
      omega
        (arith, fraction_value_pos 15 f v.fraction_digits v.fraction_fits (rw v.no_trailing_zero e))
]

pub amount-lt : (i f : Text) → IsCanonical i f → amount i f < 10 ^ 30
unfolding amount
amount-lt i f v = omega (
  arith,
  integer_value_bound i v.integer_digits,
  pow_mono (length i) 15 v.integer_fits,
  fraction_value_bound 15 f v.fraction_digits,
)

-- `parse_rate` drops zeros and nothing else: the decimal that it returns stands for the amount
-- that the digits of its argument spell, which is positive and fits NUMERIC(30,15).
pub parse_rate-amount :
    (s : Text) {r : Rate}
    → parse_rate s ≡ ok r
    → (i : Text) × (f : Text) × IsCanonical i f
      × (r.decimal ≡ decimal_text i f)
      × (amount i f ≡ amount (integer_of s) (fraction_of s))
      × (1 ≤ amount i f)
      × (amount i f < 10 ^ 30)
unfolding amount
parse_rate-amount s h =
    let i = integer_of s in
    let f = fraction_of s in
    let (v, text) = parse_digits-IsCanonical i f (parse_rate-digits s h) in
    (
      or_zero (trim_left_zeros i),
      trim_right_zeros f,
      v,
      text,
      omega (arith, integer_value-trim i, fraction_value-trim 15 f),
      unfold amount in amount_pos _ _ v,
      unfold amount in amount-lt _ _ v,
    )
