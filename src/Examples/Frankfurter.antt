-- ===== src/Examples/Frankfurter.antt =====
-- A response of the provider.
use fx_quotes.Prelude.Int.{pos}
use fx_quotes.Usecase.Retry.{minute}
use fx_quotes.Usecase.Service.{
  FetchError, classified, temporary, failure_code_of, provider_failure, hint_of,
}
use fx_quotes.Postgres.Schema.{failure_check}
use fx_quotes.Frankfurter.Failed.{fetch_rate-failure_code_of}
use fx_quotes.Prelude.{ℕ, ◌≤◌, err, ◌≡◌, refl, true, false, [], none, some, ok}
use fx_quotes.Text.{codes, text_eq}
use fx_quotes.Entity.Pair.{parse_pair}
use fx_quotes.Entity.Pair.RoundTrip.{IsSupported}
use fx_quotes.Entity.Rate.{parse_rate}
use fx_quotes.Frankfurter.{
  response_failure, kind_of_status, Parsers, FetchIo, fetch_rate, respond, read_quote, decode_quote,
  payload_quote, numbered_quote, rated_quote, dated_quote, retry_after_of, seconds_wait,
  digits_value, ReadEnd, max_retry_after, Response,
}
use fx_quotes.Frankfurter.Fetched.{IsFetched, fetch_rate-IsFetched}
use fx_quotes.Examples.World.{pair, quote}

abbrev parsers : Parsers
parsers = record {
  payload = λ body. some (record {
    date = codes "2024-10-04";
    base = codes "USD";
    quote = codes "EUR";
    rate = some (codes "0.92340");
  });
  is_last = λ body. true;
  date = λ text. some 20000;
  year = λ date. 2024;
  format = λ date. codes "2024-10-04";
  http_time = λ text. none;
}

abbrev fetch_io : FetchIo
fetch_io = record {
  ended_before = false;
  bad_request = false;
  ended_in_request = false;
  ended_in_body = false;
  timed_out = false;
  now = 0;
  response = some (record { status = 200; retry_after = []; body = []; read = ReadEnd.complete });
}

fetched_quote : fetch_rate parsers fetch_io pair ≡ ok quote
unfolding fetch_rate respond read_quote decode_quote payload_quote numbered_quote rated_quote
    dated_quote parse_rate parse_pair text_eq
fetched_quote = refl

-- The seconds of the header, and the cap.
short_wait : retry_after_of parsers (codes " 7 ") 0 ≡ 7_000_000_000
unfolding retry_after_of seconds_wait digits_value parse_rate
short_wait = refl

long_wait : retry_after_of parsers (codes "18446744073709551617") 0 ≡ max_retry_after
unfolding retry_after_of seconds_wait digits_value parse_rate
long_wait = refl

fetch_rate-IsFetched_example :
    IsSupported pair
    × ((response : Response) × (fetch_io.response ≡ some response)
        × IsFetched parsers pair response quote)
fetch_rate-IsFetched_example = fetch_rate-IsFetched parsers fetch_io pair fetched_quote

abbrev busy_io : FetchIo
busy_io = record fetch_io {
  response =
      some (record { status = 503; retry_after = codes "7"; body = []; read = ReadEnd.complete });
}

abbrev busy : FetchError
busy = classified (record { kind = temporary; code = []; retry_after = pos 7_000_000_000 })

busy_fetch : fetch_rate parsers busy_io pair ≡ err busy
unfolding fetch_rate respond read_quote decode_quote response_failure kind_of_status retry_after_of
    seconds_wait digits_value parse_rate parse_pair text_eq
busy_fetch = refl

fetch_rate-failure_code_of_example :
    (failure_check (failure_code_of (provider_failure busy)) ≡ true)
    × ((wait : ℕ) × (hint_of (provider_failure busy) ≡ pos wait) × (wait ≤ minute))
fetch_rate-failure_code_of_example = fetch_rate-failure_code_of parsers busy_io pair busy_fetch
