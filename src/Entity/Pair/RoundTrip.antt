-- ===== src/Entity/Pair/RoundTrip.antt =====
-- Which pairs `parse_pair` returns, and how they read back from their print.
use fx_quotes.Prelude.{
  ◌≡◌, ◌≢◌, ◌⊎◌, refl, sym, ◌∙◌, inl, inr, Bool, true, false, ◌||◌, List, [], ◌∷◌, ok, arith,
  Result-cases, Bool-cases,
}
use fx_quotes.Text.{Text, codes, text_eq, trim_space, to_upper, split}
use fx_quotes.Text.Laws.{text_eq_iff}
use fx_quotes.Entity.Pair.{
  Currency, usd, eur, mxn, Pair, parse_currency, parse_parts, parse_pair, print,
}

-- One of the three currencies.
abbrev pub IsCurrency : Currency → Type 0
IsCurrency c = (c ≡ usd) ⊎ (c ≡ eur) ⊎ (c ≡ mxn)

pub record IsSupported (p : Pair) : Type 0 where
  pub base_known : IsCurrency p.base
  pub quote_known : IsCurrency p.quote
  pub distinct : p.base ≢ p.quote

pub parse_currency-IsCurrency : (s : Text) {c : Currency} → parse_currency s ≡ ok c → IsCurrency c
unfolding parse_currency
parse_currency-IsCurrency s h =
    let c = to_upper (trim_space s) in
    ground (arith, text_eq_iff c usd, text_eq_iff c eur, text_eq_iff c mxn)

parse_parts-IsSupported : (ps : List Text) {p : Pair} → parse_parts ps ≡ ok p → IsSupported p
unfolding parse_parts
parse_parts-IsSupported (a ∷ b ∷ []) {p} h = elim (Result-cases (parse_currency a)) [
  | inl (base, ea) ↦ elim (Result-cases (parse_currency b)) [
    | inl (quote, eb) ↦
        let known_a = parse_currency-IsCurrency a ea in
        let known_b = parse_currency-IsCurrency b eb in
        ground (arith, text_eq_iff base quote, known_a, known_b)
    | inr (e, eb) ↦ ground arith
  ]
  | inr (e, ea) ↦ ground arith
]
parse_parts-IsSupported _ h = cc

-- A pair that `parse_pair` returns has two distinct currencies of the three.
pub parse_pair-IsSupported : (s : Text) {p : Pair} → parse_pair s ≡ ok p → IsSupported p
parse_pair-IsSupported s h =
    parse_parts-IsSupported (split b'/' (trim_space s)) (unfold parse_pair in h)

-- The six texts that the database accepts as a pair.
abbrev pub pair_texts : List Text
pair_texts =
    codes "USD/EUR"
    ∷ codes "USD/MXN"
    ∷ codes "EUR/USD"
    ∷ codes "EUR/MXN"
    ∷ codes "MXN/USD"
    ∷ codes "MXN/EUR"
    ∷ []

-- SQL's `pair IN (…)`.
unfoldable pub is_one_of : Text → List Text → Bool
is_one_of s [] = false
is_one_of s (t ∷ ts) = text_eq s t || is_one_of s ts

-- A pair's text reads back, and is one of the six.
abbrev pub ReadsBack : Pair → Type 0
ReadsBack p = (parse_pair (print p) ≡ ok p) × (is_one_of (print p) pair_texts ≡ true)

parts-ReadsBack :
    (base quote : Currency)
    → IsCurrency base
    → IsCurrency quote
    → base ≢ quote
    → ReadsBack (record { base = base; quote = quote })
unfolding parse_pair is_one_of text_eq
parts-ReadsBack base quote (inl b) (inl q) h = absurd (h (b ∙ sym q))
parts-ReadsBack base quote (inl b) (inr (inl q)) h = rw (b, q) (refl, refl)
parts-ReadsBack base quote (inl b) (inr (inr q)) h = rw (b, q) (refl, refl)
parts-ReadsBack base quote (inr (inl b)) (inl q) h = rw (b, q) (refl, refl)
parts-ReadsBack base quote (inr (inl b)) (inr (inl q)) h = absurd (h (b ∙ sym q))
parts-ReadsBack base quote (inr (inl b)) (inr (inr q)) h = rw (b, q) (refl, refl)
parts-ReadsBack base quote (inr (inr b)) (inl q) h = rw (b, q) (refl, refl)
parts-ReadsBack base quote (inr (inr b)) (inr (inl q)) h = rw (b, q) (refl, refl)
parts-ReadsBack base quote (inr (inr b)) (inr (inr q)) h = absurd (h (b ∙ sym q))

pub IsSupported-ReadsBack : (p : Pair) → IsSupported p → ReadsBack p
IsSupported-ReadsBack p v = parts-ReadsBack p.base p.quote v.base_known v.quote_known v.distinct

-- Whatever text `parse_pair` accepts, in any case and with spaces round it, its pair holds two
-- distinct currencies of USD, EUR and MXN, prints to one of the six texts of the database's CHECK,
-- and reads back from that print.
pub parse_pair_sound :
    (s : Text) {p : Pair}
    → parse_pair s ≡ ok p
    → IsSupported p × (parse_pair (print p) ≡ ok p) × (is_one_of (print p) pair_texts ≡ true)
parse_pair_sound s {p} h =
    let v = parse_pair-IsSupported s h in
    let (back, listed) = IsSupported-ReadsBack p v in (v, back, listed)

-- The texts of a list, one alternative for each.
abbrev Listed : Text → List Text → Type 0
Listed s [] = ⊥
Listed s (t ∷ ts) = (s ≡ t) ⊎ Listed s ts

is_one_of-Listed : (s : Text) (ts : List Text) → is_one_of s ts ≡ true → Listed s ts
unfolding is_one_of
is_one_of-Listed s [] h = cc
is_one_of-Listed s (t ∷ ts) h = elim (Bool-cases (text_eq s t)) [
  | inl same ↦ inl ((text_eq_iff s t).0 same)
  | inr other ↦ inr (is_one_of-Listed s ts (rw other at h))
]

abbrev ParsesTo : Text → Type 0
ParsesTo s = (p : Pair) × (parse_pair s ≡ ok p) × (print p ≡ s)

Listed-ParsesTo : (s : Text) → Listed s pair_texts → ParsesTo s
unfolding parse_pair
Listed-ParsesTo s (inl e) = rw e (record { base = usd; quote = eur }, refl, refl)
Listed-ParsesTo s (inr (inl e)) = rw e (record { base = usd; quote = mxn }, refl, refl)
Listed-ParsesTo s (inr (inr (inl e))) = rw e (record { base = eur; quote = usd }, refl, refl)
Listed-ParsesTo s (inr (inr (inr (inl e)))) = rw e (record { base = eur; quote = mxn }, refl, refl)
Listed-ParsesTo s (inr (inr (inr (inr (inl e))))) =
    rw e (record { base = mxn; quote = usd }, refl, refl)
Listed-ParsesTo s (inr (inr (inr (inr (inr (inl e)))))) =
    rw e (record { base = mxn; quote = eur }, refl, refl)
Listed-ParsesTo s (inr (inr (inr (inr (inr (inr none_left)))))) = elim none_left [ ]

-- Each text that the database's CHECK admits as a pair parses to a pair that prints to it.
pub parse_pair_complete :
    (s : Text) → is_one_of s pair_texts ≡ true → (p : Pair) × (parse_pair s ≡ ok p) × (print p ≡ s)
parse_pair_complete s h = Listed-ParsesTo s (is_one_of-Listed s pair_texts h)
