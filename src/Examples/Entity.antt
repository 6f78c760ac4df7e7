-- ===== src/Examples/Entity.antt =====
-- The parsers of internal/entity at concrete texts.
use fx_quotes.Prelude.{
  ◌-◌, ◌≤◌, ◌<◌, ◌^◌, ◌≡◌, refl, true, [], ◌∷◌, ◌++◌, Option, some, ok, length, replicate,
}
use fx_quotes.Text.{Text, codes, split_two, text_eq}
use fx_quotes.Text.Digits.{split_two-digits, split_two-point}
use fx_quotes.Entity.Pair.{Pair, usd, eur, parse_pair, print}
use fx_quotes.Entity.Pair.RoundTrip.{
  IsSupported, pair_texts, is_one_of, parse_pair_sound, parse_pair_complete,
}
use fx_quotes.Entity.Rate.{Rate, parse_rate, or_empty}
use fx_quotes.Entity.Rate.Canonical.{IsCanonical, decimal_text}
use fx_quotes.Entity.Rate.RoundTrip.{
  PrintsNumeric, integer_of, fraction_of, parse_rate-print, parse_rate-numeric,
}
use fx_quotes.Entity.Rate.Value.{amount, parse_rate-amount}

abbrev usd_eur : Pair
usd_eur = record { base = usd; quote = eur }

lower_case_pair : parse_pair (codes " usd/ Eur ") ≡ ok usd_eur
unfolding parse_pair
lower_case_pair = refl

parse_pair_sound_example :
    IsSupported usd_eur
    × (parse_pair (print usd_eur) ≡ ok usd_eur)
    × (is_one_of (print usd_eur) pair_texts ≡ true)
parse_pair_sound_example = parse_pair_sound (codes " usd/ Eur ") lower_case_pair

parse_pair_complete_example :
    (p : Pair) × (parse_pair (codes "MXN/USD") ≡ ok p) × (print p ≡ codes "MXN/USD")
unfolding is_one_of text_eq
parse_pair_complete_example = parse_pair_complete (codes "MXN/USD") refl

abbrev small_rate : Rate
small_rate = record { decimal = codes "0.9234" }

trimmed_rate : parse_rate (codes " 00.92340 ") ≡ ok small_rate
unfolding parse_rate
trimmed_rate = refl

parse_rate-print_example : parse_rate (codes "0.9234") ≡ ok small_rate
parse_rate-print_example = parse_rate-print (codes " 00.92340 ") trimmed_rate

parse_rate-amount_example :
    (i : Text) × (f : Text) × IsCanonical i f
    × (codes "0.9234" ≡ decimal_text i f)
    × (amount i f ≡ amount (integer_of (codes " 00.92340 ")) (fraction_of (codes " 00.92340 ")))
    × (1 ≤ amount i f)
    × (amount i f < 10 ^ 30)
parse_rate-amount_example = parse_rate-amount (codes " 00.92340 ") trimmed_rate

-- A cast that prints 15 digits behind the point.
abbrev pad_parts : Text × Option Text → Option Text
pad_parts (i, g) = some (i ++ b'.' ∷ (or_empty g ++ replicate (15 - length (or_empty g)) b'0'))

unfoldable pub pad_numeric : Text → Option Text
pad_numeric s = pad_parts (split_two b'.' s)

pub pad_numeric-PrintsNumeric : PrintsNumeric pad_numeric
unfolding pad_numeric
pad_numeric-PrintsNumeric i [] v = rw (split_two-digits i v.integer_digits)
pad_numeric-PrintsNumeric i (c ∷ f) v = rw (split_two-point i (c ∷ f) v.integer_digits)

parse_rate-numeric_example :
    (t : Text) × (pad_numeric (codes "0.9234") ≡ some t) × (parse_rate t ≡ ok small_rate)
parse_rate-numeric_example =
    parse_rate-numeric pad_numeric pad_numeric-PrintsNumeric (codes " 00.92340 ") trimmed_rate
