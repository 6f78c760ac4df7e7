-- ===== src/Entity/Pair.antt =====
-- internal/entity/currency.go and internal/entity/pair.go.
pub mod RoundTrip
use fx_quotes.Prelude.{◌||◌, List, [], ◌∷◌, ◌++◌, Result, ok, err, ◌>>=◌, if◌then◌else◌, ◌≡◌, refl}
use fx_quotes.Text.{Text, codes, text_eq, trim_space, to_upper, split}

-- `type Currency string`.
abbrev pub Currency : Type 0
Currency = Text

abbrev pub usd : Currency
usd = codes "USD"

abbrev pub eur : Currency
eur = codes "EUR"

abbrev pub mxn : Currency
mxn = codes "MXN"

pub data ParseError : Type 0 where
  unsupported_currency bad_pair_format same_currencies : ParseError

pub record Pair : Type 0 where
  pub base : Currency
  pub quote : Currency

unfoldable pub parse_currency : Text → Result ParseError Currency
unfolding text_eq to_upper trim_space
parse_currency value =
    let currency = to_upper (trim_space value) in
    if text_eq currency usd || text_eq currency eur || text_eq currency mxn
    then ok currency
    else err unsupported_currency

unfoldable pub parse_parts : List Text → Result ParseError Pair
parse_parts (first ∷ second ∷ []) = do
  base ← parse_currency first
  quote ← parse_currency second
  if text_eq base quote then err same_currencies else ok (record { base = base; quote = quote })
parse_parts _ = err bad_pair_format

unfoldable pub parse_pair : Text → Result ParseError Pair
unfolding parse_parts parse_currency split
parse_pair value = parse_parts (split b'/' (trim_space value))

-- `Pair.String`.
abbrev pub print : Pair → Text
print pair = pair.base ++ b'/' ∷ pair.quote

lower_case : parse_pair (codes " usd/ Eur ") ≡ ok (record { base = usd; quote = eur })
unfolding parse_pair
lower_case = refl
