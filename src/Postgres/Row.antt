-- ===== src/Postgres/Row.antt =====
-- internal/adapter/postgres/row.go.
use fx_quotes.Prelude.{ℕ, Option, none, some, Result, ok, err, ◌>>=◌}
use fx_quotes.Text.{Text}
use fx_quotes.Entity.Pair.{Pair, parse_pair}
use fx_quotes.Entity.Rate.{Rate, parse_rate, or_empty}
use fx_quotes.Entity.Update.{Quote, QuoteUpdate}
use fx_quotes.Usecase.Commands.{StoreError, undecodable_row, nil_dereference}
use fx_quotes.Postgres.Schema.{Row}

abbrev pub or_undecodable {ℓ} : {E : Type ℓ} {A : Type 0} → Result E A → Result StoreError A
or_undecodable (ok a) = ok a
or_undecodable (err e) = err undecodable_row

abbrev pub scan_quote :
    Pair → Rate → Option Text → Option ℕ → Option ℕ → Result StoreError (Option Quote)
scan_quote pair rate (some provider) (some source_date) (some finished_at) = ok (
    some (record {
      pair = pair;
      rate = rate;
      provider = provider;
      source_date = source_date;
      updated_at = finished_at;
    }))
scan_quote pair rate _ _ _ = err nil_dereference

abbrev pub scan_rate : Pair → Row → Option Text → Result StoreError (Option Quote)
scan_rate pair row none = ok none
scan_rate pair row (some text) = do
  rate ← or_undecodable (parse_rate text)
  scan_quote pair rate row.provider row.source_date row.finished_at

unfoldable pub scan_update : Row → Result StoreError QuoteUpdate
scan_update row = do
  pair ← or_undecodable (parse_pair row.pair)
  quote ← scan_rate pair row row.rate
  ok (record {
    id = row.id;
    pair = pair;
    status = row.status;
    attempt = row.attempt;
    quote = quote;
    failure_code = or_empty row.failure_code;
    created_at = row.created_at;
  })
