-- ===== src/App/Api/Rows.antt =====
-- A row that passes the constraints of its table has an answer.
pub mod Columns
use fx_quotes.Prelude.{
  Result-cases, ℕ, ◌≡◌, refl, ◌⊎◌, inl, inr, true, [], Option, none, some, ok, err, arith,
}
use fx_quotes.Text.{Text}
use fx_quotes.Entity.Pair.{Pair, parse_pair, print}
use fx_quotes.Entity.Pair.RoundTrip.{is_one_of, pair_texts, parse_pair_complete}
use fx_quotes.Entity.Rate.{Rate, RateError, or_empty, parse_rate}
use fx_quotes.Entity.Update.{
  Quote, QuoteUpdate, UpdateStatus, pending, processing, completed, failed,
}
use fx_quotes.Usecase.Commands.{undecodable_row}
use fx_quotes.Postgres.Schema.{Row, row_check, state_shape, failure_check, is_some, is_none}
use fx_quotes.Postgres.Row.{scan_update}
use fx_quotes.App.Api.Rows.Columns.{
  HasResult, completed_columns, failed_columns, completed_code, waiting_columns, checked_parts,
}
use fx_quotes.Http.Dto.{Formats, QuoteDto, UpdateDto, update_dto, map_update, map_status, map_quote}

-- The quote of an answer: none where the row has no rate, and else the row's rate, parsed, with the
-- row's pair, provider, source date and time of completion.
pub data ShowsQuote (formats : Formats) (r : Row) : Option QuoteDto → Type 0 where
  no_quote : r.rate ≡ none → ShowsQuote formats r none
  with_quote :
      (text : Text) (rate : Rate) (date finished : ℕ) (dto : QuoteDto)
      → r.rate ≡ some text
      → parse_rate text ≡ ok rate
      → r.source_date ≡ some date
      → r.finished_at ≡ some finished
      → r.provider ≡ some dto.provider
      → dto.pair ≡ r.pair
      → dto.rate ≡ rate.decimal
      → dto.source_date ≡ formats.date_only date
      → dto.updated_at ≡ formats.rfc3339_nano finished
      → ShowsQuote formats r (some dto)

-- The answer that shows a row: all its fields are those of the row.
pub record ShowsRow (formats : Formats) (r : Row) (dto : UpdateDto) : Type 0 where
  pub of_id : dto.id ≡ r.id
  pub of_pair : dto.pair ≡ r.pair
  pub of_status : dto.status ≡ r.status
  pub of_created_at : dto.created_at ≡ formats.rfc3339_nano r.created_at
  pub of_quote : ShowsQuote formats r dto.quote
  pub of_failure : dto.failure_code ≡ or_empty r.failure_code

pub record Shows (formats : Formats) (r : Row) (u : QuoteUpdate) : Type 0 where
  pub dto : UpdateDto
  pub mapped : map_update formats u ≡ some dto
  pub shown : ShowsRow formats r dto

-- The row has a rate that cannot be parsed.
abbrev pub IsUnreadable : Row → Type 0
IsUnreadable r = (text : Text) × (e : RateError) × (r.rate ≡ some text) × (parse_rate text ≡ err e)

-- The row is decoded to an update that is shown with its fields, or it is unreadable.
abbrev pub HasAnswer : Formats → Row → Type 0
HasAnswer formats r =
    ((u : QuoteUpdate) × (scan_update r ≡ ok u) × Shows formats r u)
    ⊎ ((scan_update r ≡ err undecodable_row) × IsUnreadable r)

module _ (formats : Formats) where
  scanned : Row → Pair → Option Quote → QuoteUpdate
  scanned r p quote = record {
    id = r.id;
    pair = p;
    status = r.status;
    attempt = r.attempt;
    quote = quote;
    failure_code = or_empty r.failure_code;
    created_at = r.created_at;
  }

  scan-unrated :
      (r : Row) (p : Pair)
      → parse_pair r.pair ≡ ok p
      → r.rate ≡ none
      → scan_update r ≡ ok (scanned r p none)
  unfolding scan_update scanned
  scan-unrated r p parsed e = rw (parsed, e)

  row_quote : Pair → Rate → Text → ℕ → ℕ → Quote
  row_quote p rate provider date finished = record {
    pair = p;
    rate = rate;
    provider = provider;
    source_date = date;
    updated_at = finished;
  }

  waiting-Shows :
      (r : Row) (p : Pair)
      → print p ≡ r.pair
      → (r.status ≡ pending) ⊎ (r.status ≡ processing)
      → (r.rate ≡ none) × (r.failure_code ≡ none)
      → Shows formats r (scanned r p none)
  unfolding map_update map_status scanned
  waiting-Shows r p printed waits (unrated, no_code) = record {
    dto = update_dto formats (scanned r p none) none [];
    mapped = elim waits [ inl e ↦ rw e refl | inr e ↦ rw e refl ];
    shown = record {
      of_id = refl;
      of_pair = printed;
      of_status = refl;
      of_created_at = refl;
      of_quote = no_quote unrated;
      of_failure = rw no_code refl;
    };
  }

  completed-Shows :
      (r : Row) (p : Pair) (text : Text) (rate : Rate) (provider : Text) (date finished : ℕ)
      → print p ≡ r.pair
      → r.status ≡ completed
      → r.failure_code ≡ none
      → parse_rate text ≡ ok rate
      → r.rate ≡ some text
      → r.provider ≡ some provider
      → r.source_date ≡ some date
      → r.finished_at ≡ some finished
      → Shows formats r (scanned r p (some (row_quote p rate provider date finished)))
  unfolding map_update map_status map_quote scanned row_quote
  completed-Shows r p text rate provider date finished printed e no_code read rated by dated ended =
      let q = row_quote p rate provider date finished in
      record {
        dto = update_dto formats (scanned r p (some q)) (some (map_quote formats q)) [];
        mapped = rw e refl;
        shown = record {
          of_id = refl;
          of_pair = printed;
          of_status = refl;
          of_created_at = refl;
          of_quote =
              with_quote text rate date finished (map_quote formats q) rated read dated ended by
                printed refl refl refl;
          of_failure = rw no_code refl;
        };
      }

  -- A completed row is decoded and shown with a quote, unless its rate cannot be parsed.
  rated-Shows :
      (r : Row) (p : Pair)
      → parse_pair r.pair ≡ ok p
      → print p ≡ r.pair
      → r.status ≡ completed
      → r.failure_code ≡ none
      → HasResult r
      → HasAnswer formats r
  unfolding scan_update scanned row_quote
  rated-Shows r p parsed printed e no_code
        (text, provider, date, finished, rated, by, dated, ended) =
      elim (Result-cases (parse_rate text)) [
        | inl (rate, read) ↦ inl (
          scanned r p (some (row_quote p rate provider date finished)),
          rw (parsed, rated, read, by, dated, ended),
          completed-Shows r p text rate provider date finished printed e no_code read rated by dated
              ended,
        )
        | inr (bad, unread) ↦ inr (rw (parsed, rated, unread), (text, bad, rated, unread))
      ]

  failed-Shows :
      (r : Row) (p : Pair) (code : Text)
      → print p ≡ r.pair
      → r.status ≡ failed
      → r.rate ≡ none
      → r.failure_code ≡ some code
      → failure_check code ≡ true
      → Shows formats r (scanned r p none)
  unfolding map_update map_status scanned failure_check
  failed-Shows r p code printed e unrated f known = record {
    dto = update_dto formats (scanned r p none) none code;
    mapped = rw (e, f, known) refl;
    shown = record {
      of_id = refl;
      of_pair = printed;
      of_status = refl;
      of_created_at = refl;
      of_quote = no_quote unrated;
      of_failure = rw f refl;
    };
  }

  -- A row that passes the constraints is shown, unless its rate cannot be parsed.
  pub row_check-Shows : (r : Row) → row_check r ≡ true → HasAnswer formats r
  row_check-Shows r h =
      let (listed, shape, codes_known) = checked_parts r h in
      let (p, parsed, printed) = parse_pair_complete r.pair listed in
      by_status p parsed printed codes_known r.status refl shape
    where
      by_status :
          (p : Pair)
          → parse_pair r.pair ≡ ok p
          → print p ≡ r.pair
          → ((code : Text) → r.failure_code ≡ some code → failure_check code ≡ true)
          → (st : UpdateStatus) → r.status ≡ st
          → state_shape st r ≡ true
          → HasAnswer formats r
      by_status p parsed printed known pending e shape =
          let columns = waiting_columns r (inl shape) in
          inl (_, scan-unrated r p parsed columns.0, waiting-Shows r p printed (inl e) columns)
      by_status p parsed printed known processing e shape =
          let columns = waiting_columns r (inr shape) in
          inl (_, scan-unrated r p parsed columns.0, waiting-Shows r p printed (inr e) columns)
      by_status p parsed printed known completed e shape =
          rated-Shows r p parsed printed e (completed_code r shape) (completed_columns r shape)
      by_status p parsed printed known failed e shape =
          let (unrated, (code, f)) = failed_columns r shape in
          inl (
            _,
            scan-unrated r p parsed unrated,
            failed-Shows r p code printed e unrated f (known code f),
          )
