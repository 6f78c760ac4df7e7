-- ===== src/Frankfurter/Fetched.antt =====
-- What `FetchRate` gives the service.
use fx_quotes.Prelude.{
  ℕ, ◌≤◌, ◌≡◌, refl, sym, ap, ◌∙◌, subst, length, Bool, true, Option, none, some, Result, ok, err,
  arith, Bool-cases, inl, inr, ◌==◌, &&-both,
}
use fx_quotes.Text.{Text, text_eq}
use fx_quotes.Text.Laws.{text_eq_iff}
use fx_quotes.Entity.Pair.{Pair, ParseError, parse_pair, print}
use fx_quotes.Entity.Pair.RoundTrip.{IsSupported, parse_pair_sound}
use fx_quotes.Entity.Rate.{Rate, RateError, parse_rate}
use fx_quotes.Entity.Update.{Quote}
use fx_quotes.Frankfurter.{
  Payload, Parsers, FetchIo, Response, ReadEnd, complete, truncated, broken, frankfurter_ecb,
  max_response_bytes, dated_quote, rated_quote, numbered_quote, payload_quote, decode_quote,
  read_quote, respond, is_valid, fetch_rate,
}

-- What the date of a payload and a parsed rate make of a quote.
record IsDated (parsers : Parsers) (pair : Pair) (rate : Rate) (text : Text) (q : Quote)
    : Type 0 where
  pub of_pair : q.pair ≡ pair
  pub from_provider : q.provider ≡ frankfurter_ecb
  pub of_rate : q.rate ≡ rate
  pub of_date : parsers.date text ≡ some q.source_date
  pub of_year : 1 ≤ parsers.year q.source_date
  pub printed : parsers.format q.source_date ≡ text

-- The payload is for the pair, its rate is a number that the quote has, and its date, which prints as
-- it is written, is the quote's.
pub record IsQuoteOf (parsers : Parsers) (pair : Pair) (payload : Payload) (q : Quote)
    : Type 0 where
  pub base : payload.base ≡ pair.base
  pub quote : payload.quote ≡ pair.quote
  pub of_pair : q.pair ≡ pair
  pub from_provider : q.provider ≡ frankfurter_ecb
  pub number : Text
  pub is_number : payload.rate ≡ some number
  pub of_rate : parse_rate number ≡ ok q.rate
  pub of_date : parsers.date payload.date ≡ some q.source_date
  pub of_year : 1 ≤ parsers.year q.source_date
  pub printed : parsers.format q.source_date ≡ payload.date

-- The response is a whole answer of status 200 that holds one payload, from which the quote is made.
pub record IsFetched (parsers : Parsers) (pair : Pair) (response : Response) (q : Quote)
    : Type 0 where
  pub status : response.status ≡ 200
  pub whole : response.read ≡ complete
  pub small : length response.body ≤ max_response_bytes
  pub alone : parsers.is_last response.body ≡ true
  pub payload : Payload
  pub decoded : parsers.payload response.body ≡ some payload
  pub quote : IsQuoteOf parsers pair payload q

module _ (parsers : Parsers) (pair : Pair) {q : Quote} where
  dated_quote-IsDated :
      (rate : Rate) (text : Text) (date : Option ℕ)
      → parsers.date text ≡ date
      → dated_quote parsers pair rate text date ≡ ok q
      → IsDated parsers pair rate text q
  unfolding dated_quote
  dated_quote-IsDated rate text none d h = cc h
  dated_quote-IsDated rate text (some date) d h =
      let dated : Quote = record {
        pair = pair;
        rate = rate;
        provider = frankfurter_ecb;
        source_date = date;
        updated_at = 0;
      } in
      let same : dated ≡ q = ground (arith, h) in
      let year : 1 ≤ parsers.year date = ground (arith, h) in
      let printed : text_eq (parsers.format date) text ≡ true = ground (arith, h) in
      subst (IsDated parsers pair rate text) same (record {
        of_pair = refl;
        from_provider = refl;
        of_rate = refl;
        of_date = d;
        of_year = year;
        printed = (text_eq_iff (parsers.format date) text).0 printed;
      })

  rated_quote-IsDated :
      (text : Text) (parsed : Result RateError Rate)
      → rated_quote parsers pair text parsed ≡ ok q
      → (rate : Rate) × (parsed ≡ ok rate) × IsDated parsers pair rate text q
  unfolding rated_quote
  rated_quote-IsDated text (err e) h = cc h
  rated_quote-IsDated text (ok rate) h =
      (rate, refl, dated_quote-IsDated rate text (parsers.date text) refl h)

  numbered_quote-IsDated :
      (text : Text) (number : Option Text)
      → numbered_quote parsers pair text number ≡ ok q
      → (n : Text) × (rate : Rate) × (number ≡ some n)
        × (parse_rate n ≡ ok rate)
        × IsDated parsers pair rate text q
  unfolding numbered_quote
  numbered_quote-IsDated text none h = cc h
  numbered_quote-IsDated text (some number) h =
      let (rate, parsed, dated) = rated_quote-IsDated text (parse_rate number) h in
      (number, rate, refl, parsed, dated)

  payload_quote-IsQuoteOf :
      (last : Bool) (payload : Option Payload)
      → payload_quote parsers pair last payload ≡ ok q
      → (last ≡ true) × ((p : Payload) × (payload ≡ some p) × IsQuoteOf parsers pair p q)
  unfolding payload_quote
  payload_quote-IsQuoteOf last none h = cc h
  payload_quote-IsQuoteOf last (some payload) h =
      let e : numbered_quote parsers pair payload.date payload.rate ≡ ok q = ground arith in
      let base : text_eq payload.base pair.base ≡ true = ground (arith, h) in
      let quote : text_eq payload.quote pair.quote ≡ true = ground (arith, h) in
      let (number, rate, is_number, parsed, dated) =
        numbered_quote-IsDated payload.date payload.rate e in
      (
        ground (arith, h),
        (
          payload,
          refl,
          record {
            base = (text_eq_iff payload.base pair.base).0 base;
            quote = (text_eq_iff payload.quote pair.quote).0 quote;
            of_pair = dated.of_pair;
            from_provider = dated.from_provider;
            number = number;
            is_number = is_number;
            of_rate = parsed ∙ ap ok (sym dated.of_rate);
            of_date = dated.of_date;
            of_year = dated.of_year;
            printed = dated.printed;
          },
        ),
      )

  read_quote-IsFetched :
      (io : FetchIo) (response : Response) (read : ReadEnd)
      → response.read ≡ read
      → length response.body ≤ max_response_bytes
      → read_quote parsers io pair response read ≡ ok q
      → IsFetched parsers pair response q
  unfolding read_quote decode_quote
  read_quote-IsFetched io response complete end small h =
      elim (Bool-cases (response.status == 200)) [
        | inl fine ↦
            let (alone, (payload, decoded, quote)) =
              payload_quote-IsQuoteOf (parsers.is_last response.body)
                (parsers.payload response.body) (rw fine at h) in
            record {
              status = ground (arith, fine);
              whole = end;
              small = small;
              alone = alone;
              payload = payload;
              decoded = decoded;
              quote = quote;
            }
        | inr other ↦ cc (rw other at h)
      ]
  read_quote-IsFetched io response truncated end small h = cc h
  read_quote-IsFetched io response broken end small h = cc h

  respond-IsFetched :
      (io : FetchIo) (answer : Option Response)
      → respond parsers io pair answer ≡ ok q
      → (response : Response) × (answer ≡ some response) × IsFetched parsers pair response q
  unfolding respond
  respond-IsFetched io none h = elim (Bool-cases io.ended_in_request) [
    | inl ended ↦ cc (rw ended at h)
    | inr failed ↦ cc (rw failed at h)
  ]
  respond-IsFetched io (some response) h =
      let e : read_quote parsers io pair response response.read ≡ ok q = ground arith in
      let small : length response.body ≤ max_response_bytes = ground (arith, h) in
      (response, refl, read_quote-IsFetched io response response.read refl small e)

is_valid-IsSupported :
    (pair : Pair) → is_valid pair (parse_pair (print pair)) ≡ true → IsSupported pair
is_valid-IsSupported pair h = validated (parse_pair (print pair)) refl h
  where
    validated :
        (answer : Result ParseError Pair)
        → parse_pair (print pair) ≡ answer
        → is_valid pair answer ≡ true
        → IsSupported pair
    validated (err e) parsed valid = cc valid
    validated (ok v) parsed valid =
        let base = (text_eq_iff v.base pair.base).0 (&&-both _ _ valid).0 in
        let quote = (text_eq_iff v.quote pair.quote).0 (&&-both _ _ valid).1 in
        let same : v ≡ pair = cc (base, quote) in
        subst IsSupported same (parse_pair_sound (print pair) parsed).0

-- Where `FetchRate` gives a quote, the pair is one of the supported pairs, and there is a whole
-- response of status 200, of at most 65536 bytes, with one JSON value and nothing behind it: the
-- value names the two currencies of the pair, the quote's rate is what its number is parsed to, and
-- the quote's date is its date, which prints back as it is written and has a positive year. The
-- quote is for the pair that was asked for and names the provider.
pub fetch_rate-IsFetched :
    (parsers : Parsers) (io : FetchIo) (pair : Pair) {q : Quote}
    → fetch_rate parsers io pair ≡ ok q
    → IsSupported pair
      × ((response : Response) × (io.response ≡ some response) × IsFetched parsers pair response q)
unfolding fetch_rate
fetch_rate-IsFetched parsers io pair {q} h =
    let e : respond parsers io pair io.response ≡ ok q = ground arith in
    let valid : is_valid pair (parse_pair (print pair)) ≡ true = ground arith in
    (is_valid-IsSupported pair valid, respond-IsFetched parsers pair io io.response e)
