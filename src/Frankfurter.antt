-- ===== src/Frankfurter.antt =====
-- internal/adapter/frankfurter/provider.go: FetchRate. What the context, the HTTP client and the
-- parsers of JSON and of dates do is an argument.

pub mod Fetched
pub mod Failed
pub mod Client
use fx_quotes.Prelude.{
  ℕ, zero, suc, ◌+◌, ◌-◌, ◌*◌, ◌^◌, min, Bool, true, false, not, ◌&&◌, ◌||◌, List, [], ◌∷◌, Option,
  none, some, Result, ok, err, ltb, leb, ◌==◌, if◌then◌else◌, length, ◌≡◌, refl,
}
use fx_quotes.Prelude.Int.{ℤ, pos}
use fx_quotes.Text.{Text, codes, text_eq, is_empty, trim_space}
use fx_quotes.Entity.Pair.{Pair, ParseError, parse_pair, print}
use fx_quotes.Entity.Rate.{Rate, RateError, parse_rate, only_digits}
use fx_quotes.Entity.Update.{Quote}
use fx_quotes.Usecase.Retry.{second, minute}
use fx_quotes.Usecase.Service.{
  FailureKind, temporary, throttled, permanent, ProviderError, FetchError, classified, unclassified,
}

-- The fields that the JSON decoder finds; the rate is the text of a number, or no number.
pub record Payload : Type 0 where
  pub date : Text
  pub base : Text
  pub quote : Text
  pub rate : Option Text

-- The body is what `ReadAll` has read of it; `read` is its error.
pub data ReadEnd : Type 0 where
  complete truncated broken : ReadEnd

pub record Response : Type 0 where
  pub status : ℕ
  pub retry_after : Text
  pub body : List ℕ
  pub read : ReadEnd

-- The parsers: JSON with the check of what follows the value, a date as a number of days with its
-- year and its print, and an HTTP date in nanoseconds.
pub record Parsers : Type 0 where
  pub payload : List ℕ → Option Payload
  pub is_last : List ℕ → Bool
  pub date : Text → Option ℕ
  pub year : ℕ → ℕ
  pub format : ℕ → Text
  pub http_time : Text → Option ℕ

-- When the caller's context has ended (before the call, when the client fails, after the body), and
-- whether the timeout has run out; the response, if there is one; and the clock.
pub record FetchIo : Type 0 where
  pub ended_before : Bool
  pub bad_request : Bool
  pub ended_in_request : Bool
  pub ended_in_body : Bool
  pub timed_out : Bool
  pub response : Option Response
  pub now : ℕ

abbrev pub max_response_bytes : ℕ
max_response_bytes = 65_536

abbrev pub max_retry_after : ℕ
max_retry_after = minute

abbrev pub frankfurter_ecb : Text
frankfurter_ecb = codes "frankfurter-ecb"

abbrev pub failure : {A : Type 0} → FailureKind → Result FetchError A
failure kind = err (classified (record { kind = kind; code = []; retry_after = pos 0 }))

-- The value of a text of digits, behind the value of those before.
unfoldable pub digits_value : ℕ → Text → ℕ
digits_value v [] = v
digits_value v (c ∷ s) = digits_value (v * 10 + (c - b'0')) s

-- `strconv.ParseUint` fails from 2^64 on.
unfoldable pub seconds_wait : ℕ → ℕ
seconds_wait seconds =
    if leb (2 ^ 64) seconds || leb 60 seconds then max_retry_after else seconds * second

-- `min(maxRetryAfter, max(0, date.Sub(now)))`.
unfoldable pub date_wait : Option ℕ → ℕ → ℕ
date_wait none now = 0
date_wait (some date) now = min max_retry_after (date - now)

unfoldable pub retry_after_of : Parsers → Text → ℕ → ℕ
retry_after_of parsers raw now =
    let header = trim_space raw in
    if is_empty header
    then 0
    else if only_digits header
    then seconds_wait (digits_value 0 header)
    else date_wait (parsers.http_time header) now

unfoldable pub kind_of_status : ℕ → FailureKind
kind_of_status status =
    if status == 429
    then throttled
    else if status == 408 || status == 500 || status == 502 || status == 503 || status == 504
    then temporary
    else permanent

abbrev pub wait_of : FailureKind → ℕ → ℕ
wait_of permanent wait = 0
wait_of temporary wait = wait
wait_of throttled wait = wait

unfoldable pub response_failure : Parsers → Response → ℕ → ProviderError
response_failure parsers response now =
    let kind = kind_of_status response.status in
    record {
      kind = kind;
      code = [];
      retry_after = pos (wait_of kind (retry_after_of parsers response.retry_after now));
    }

abbrev or_permanent : {E A : Type 0} → Result E A → Result FetchError A
or_permanent (ok a) = ok a
or_permanent (err e) = failure permanent

-- The quote of a parsed date; `updated_at` is the zero time.
unfoldable pub dated_quote : Parsers → Pair → Rate → Text → Option ℕ → Result FetchError Quote
dated_quote parsers pair rate text none = failure permanent
dated_quote parsers pair rate text (some date) =
    if ltb (parsers.year date) 1 || not (text_eq (parsers.format date) text)
    then failure permanent
    else ok (record {
      pair = pair;
      rate = rate;
      provider = frankfurter_ecb;
      source_date = date;
      updated_at = 0;
    })

unfoldable pub rated_quote : Parsers → Pair → Text → Result RateError Rate → Result FetchError Quote
rated_quote parsers pair text (err e) = failure permanent
rated_quote parsers pair text (ok rate) = dated_quote parsers pair rate text (parsers.date text)

unfoldable pub numbered_quote : Parsers → Pair → Text → Option Text → Result FetchError Quote
numbered_quote parsers pair text none = failure permanent
numbered_quote parsers pair text (some number) = rated_quote parsers pair text (parse_rate number)

unfoldable pub payload_quote : Parsers → Pair → Bool → Option Payload → Result FetchError Quote
payload_quote parsers pair last none = failure permanent
payload_quote parsers pair last (some payload) =
    if not last
    then failure permanent
    else if not (text_eq payload.base pair.base) || not (text_eq payload.quote pair.quote)
    then failure permanent
    else numbered_quote parsers pair payload.date payload.rate

unfoldable pub decode_quote : Parsers → List ℕ → Pair → Result FetchError Quote
decode_quote parsers body pair =
    payload_quote parsers pair (parsers.is_last body) (parsers.payload body)

-- `FetchRate` behind the read of the body.
unfoldable pub read_quote : Parsers → FetchIo → Pair → Response → ReadEnd → Result FetchError Quote
read_quote parsers io pair response complete =
    if response.status == 200
    then decode_quote parsers response.body pair
    else err (classified (response_failure parsers response io.now))
read_quote parsers io pair response truncated = failure temporary
read_quote parsers io pair response broken = failure temporary

unfoldable pub respond : Parsers → FetchIo → Pair → Option Response → Result FetchError Quote
respond parsers io pair none = if io.ended_in_request then err unclassified else failure temporary
respond parsers io pair (some response) =
    if io.ended_in_body
    then err unclassified
    else if io.timed_out
    then failure temporary
    else if ltb max_response_bytes (length response.body)
    then failure permanent
    else read_quote parsers io pair response response.read

abbrev pub is_valid : Pair → Result ParseError Pair → Bool
is_valid pair (err e) = false
is_valid pair (ok validated) =
    text_eq validated.base pair.base && text_eq validated.quote pair.quote

unfoldable pub fetch_rate : Parsers → FetchIo → Pair → Result FetchError Quote
fetch_rate parsers io pair =
    if io.ended_before
    then err unclassified
    else if not (is_valid pair (parse_pair (print pair))) || io.bad_request
    then failure permanent
    else respond parsers io pair io.response
