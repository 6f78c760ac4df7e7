-- ===== src/Frankfurter/Failed.antt =====
-- The failures that `FetchRate` gives the service.
use fx_quotes.Prelude.{
  ℕ, ◌≤◌, ◌≡◌, refl, subst, [], Bool, true, false, not, ◌||◌, Option, none, some, Result, ok, err,
  arith, if◌then◌else◌, ◌==◌, ltb, length,
}
use fx_quotes.Prelude.Int.{pos}
use fx_quotes.Text.{Text, text_eq, trim_space}
use fx_quotes.Entity.Pair.{Pair, parse_pair, print}
use fx_quotes.Entity.Rate.{Rate, RateError, parse_rate}
use fx_quotes.Entity.Update.{Quote}
use fx_quotes.Usecase.Retry.{minute}
use fx_quotes.Usecase.Service.{
  FetchError, classified, unclassified, FailureKind, temporary, throttled, permanent,
  provider_failure, failure_code_of, hint_of,
}
use fx_quotes.Postgres.Schema.{failure_check}
use fx_quotes.Frankfurter.{
  Payload, Parsers, FetchIo, Response, ReadEnd, complete, truncated, broken, failure, dated_quote,
  rated_quote, numbered_quote, payload_quote, decode_quote, read_quote, respond, is_valid,
  fetch_rate, response_failure, kind_of_status, retry_after_of, seconds_wait, date_wait,
  digits_value, max_response_bytes, wait_of,
}

-- An unclassified error, or one without a code of its own that asks for at most a minute.
pub data IsPlain : FetchError → Type 0 where
  ended : IsPlain unclassified
  asks :
      (kind : FailureKind) (wait : ℕ)
      → wait ≤ minute
      → IsPlain (classified (record { kind = kind; code = []; retry_after = pos wait }))

pub data Fails : Result FetchError Quote → Type 0 where
  gives : (q : Quote) → Fails (ok q)
  fails : (e : FetchError) → IsPlain e → Fails (err e)

abbrev lost_caller : Result FetchError Quote
lost_caller = err unclassified

abbrev refused : FailureKind → Result FetchError Quote
refused kind = failure kind

seconds_wait_bound : (seconds : ℕ) → seconds_wait seconds ≤ minute
unfolding seconds_wait
seconds_wait_bound seconds = ground arith

date_wait_bound : (date : Option ℕ) (now : ℕ) → date_wait date now ≤ minute
unfolding date_wait
date_wait_bound none now = omega arith
date_wait_bound (some date) now = omega arith

retry_after_bound :
    (parsers : Parsers) (raw : Text) (now : ℕ) → retry_after_of parsers raw now ≤ minute
unfolding retry_after_of
retry_after_bound parsers raw now = ground (
  arith,
  seconds_wait_bound (digits_value 0 (trim_space raw)),
  date_wait_bound (parsers.http_time (trim_space raw)) now,
)

wait_of_bound : (kind : FailureKind) (wait : ℕ) → wait ≤ minute → wait_of kind wait ≤ minute
wait_of_bound permanent wait h = omega arith
wait_of_bound temporary wait h = h
wait_of_bound throttled wait h = h

failure-Fails : (kind : FailureKind) → Fails (failure kind)
failure-Fails kind = fails _ (asks kind 0 (omega arith))

branch-Fails :
    (b : Bool) (m n : Result FetchError Quote) → Fails m → Fails n → Fails (if b then m else n)
branch-Fails true m n p q = p
branch-Fails false m n p q = q

module _ (parsers : Parsers) (pair : Pair) where
  dated-Fails :
      (rate : Rate) (text : Text) (date : Option ℕ)
      → Fails (dated_quote parsers pair rate text date)
  unfolding dated_quote
  dated-Fails rate text none = failure-Fails permanent
  dated-Fails rate text (some date) =
      branch-Fails (ltb (parsers.year date) 1 || not (text_eq (parsers.format date) text))
        (refused permanent) (ok _) (failure-Fails permanent) (gives _)

  rated-Fails :
      (text : Text) (rate : Result RateError Rate) → Fails (rated_quote parsers pair text rate)
  unfolding rated_quote
  rated-Fails text (err e) = failure-Fails permanent
  rated-Fails text (ok rate) = dated-Fails rate text (parsers.date text)

  numbered-Fails :
      (text : Text) (number : Option Text) → Fails (numbered_quote parsers pair text number)
  unfolding numbered_quote
  numbered-Fails text none = failure-Fails permanent
  numbered-Fails text (some number) = rated-Fails text (parse_rate number)

  payload-Fails :
      (last : Bool) (payload : Option Payload) → Fails (payload_quote parsers pair last payload)
  unfolding payload_quote
  payload-Fails last none = failure-Fails permanent
  payload-Fails last (some payload) =
      let other : Bool =
        not (text_eq payload.base pair.base) || not (text_eq payload.quote pair.quote) in
      let numbered = numbered_quote parsers pair payload.date payload.rate in
      branch-Fails (not last) (refused permanent) (if other then refused permanent else numbered)
        (failure-Fails permanent)
        (branch-Fails other (refused permanent) numbered (failure-Fails permanent)
          (numbered-Fails payload.date payload.rate))

  read-Fails :
      (io : FetchIo) (response : Response) (read : ReadEnd)
      → Fails (read_quote parsers io pair response read)
  unfolding read_quote decode_quote response_failure
  read-Fails io response complete =
      branch-Fails (response.status == 200) (decode_quote parsers response.body pair)
        (err (classified (response_failure parsers response io.now)))
        (payload-Fails (parsers.is_last response.body) (parsers.payload response.body))
        (fails _ (
          asks _ _ (
            wait_of_bound (kind_of_status response.status) _
              (retry_after_bound parsers response.retry_after io.now))))
  read-Fails io response truncated = failure-Fails temporary
  read-Fails io response broken = failure-Fails temporary

  respond-Fails :
      (io : FetchIo) (response : Option Response) → Fails (respond parsers io pair response)
  unfolding respond
  respond-Fails io none =
      branch-Fails io.ended_in_request lost_caller (refused temporary) (fails _ ended)
        (failure-Fails temporary)
  respond-Fails io (some response) =
      let long : Bool = ltb max_response_bytes (length response.body) in
      let answer = read_quote parsers io pair response response.read in
      let sized : Result FetchError Quote = if long then refused permanent else answer in
      branch-Fails io.ended_in_body lost_caller (if io.timed_out then refused temporary else sized)
        (fails _ ended)
        (branch-Fails io.timed_out (refused temporary) sized (failure-Fails temporary) (
          branch-Fails long (refused permanent) answer (failure-Fails permanent)
            (read-Fails io response response.read)))

  fetch_rate-Fails : (io : FetchIo) → Fails (fetch_rate parsers io pair)
  unfolding fetch_rate
  fetch_rate-Fails io =
      let bad : Bool = not (is_valid pair (parse_pair (print pair))) || io.bad_request in
      let answer = respond parsers io pair io.response in
      branch-Fails io.ended_before lost_caller (if bad then refused permanent else answer)
        (fails _ ended)
        (branch-Fails bad (refused permanent) answer (failure-Fails permanent)
          (respond-Fails io io.response))

Fails-IsPlain : (e : FetchError) → Fails (err e) → IsPlain e
Fails-IsPlain e (fails _ plain) = plain

plain_code :
    (e : FetchError) → IsPlain e → failure_check (failure_code_of (provider_failure e)) ≡ true
unfolding failure_check text_eq
plain_code unclassified ended = refl
plain_code (classified e) (asks temporary wait h) = refl
plain_code (classified e) (asks throttled wait h) = refl
plain_code (classified e) (asks permanent wait h) = refl

-- Whatever failure `FetchRate` gives, the code that the service stores for it passes the database's
-- CHECK, and the wait that it asks for is between nothing and a minute.
pub fetch_rate-failure_code_of :
    (parsers : Parsers) (io : FetchIo) (pair : Pair) {e : FetchError}
    → fetch_rate parsers io pair ≡ err e
    → (failure_check (failure_code_of (provider_failure e)) ≡ true)
      × ((wait : ℕ) × (hint_of (provider_failure e) ≡ pos wait) × (wait ≤ minute))
fetch_rate-failure_code_of parsers io pair {e} h =
    let plain = Fails-IsPlain e (subst Fails h (fetch_rate-Fails parsers pair io)) in
    (plain_code e plain, hinted e plain)
  where
    hinted :
        (e : FetchError)
        → IsPlain e
        → (wait : ℕ) × (hint_of (provider_failure e) ≡ pos wait) × (wait ≤ minute)
    hinted unclassified ended = (0, refl, omega arith)
    hinted (classified e) (asks kind wait b) = (wait, refl, b)
