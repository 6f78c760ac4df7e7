-- ===== src/Http/Dto.antt =====
-- internal/adapter/httpapi/dto.go. `Formats` is `time.Format` with the two layouts.
use fx_quotes.Prelude.{ℕ, [], Option, none, some, ◌||◌, if◌then◌else◌}
use fx_quotes.Text.{Text, text_eq}
use fx_quotes.Entity.Pair.{print}
use fx_quotes.Entity.Update.{
  Quote, QuoteUpdate, UpdateStatus, pending, processing, completed, failed, FailureCode,
  provider_permanent, attempts_exhausted,
}

pub record QuoteDto : Type 0 where
  pub pair : Text
  pub rate : Text
  pub provider : Text
  pub source_date : Text
  pub updated_at : Text

pub record UpdateDto : Type 0 where
  pub id : Text
  pub pair : Text
  pub status : UpdateStatus
  pub created_at : Text
  pub quote : Option QuoteDto
  pub failure_code : FailureCode

pub record Formats : Type 0 where
  pub date_only : ℕ → Text
  pub rfc3339_nano : ℕ → Text

module _ (formats : Formats) where
  unfoldable pub map_quote : Quote → QuoteDto
  map_quote value = record {
    pair = print value.pair;
    rate = value.rate.decimal;
    provider = value.provider;
    source_date = formats.date_only value.source_date;
    updated_at = formats.rfc3339_nano value.updated_at;
  }

  abbrev pub update_dto : QuoteUpdate → Option QuoteDto → FailureCode → UpdateDto
  update_dto update quote code = record {
    id = update.id;
    pair = print update.pair;
    status = update.status;
    created_at = formats.rfc3339_nano update.created_at;
    quote = quote;
    failure_code = code;
  }

  abbrev map_completed : QuoteUpdate → Option Quote → Option UpdateDto
  map_completed update none = none
  map_completed update (some quote) = some (update_dto update (some (map_quote quote)) [])

  abbrev map_failed : QuoteUpdate → FailureCode → Option UpdateDto
  map_failed update code =
      if text_eq code provider_permanent || text_eq code attempts_exhausted
      then some (update_dto update none code)
      else none

  -- The switch of `mapUpdate`.
  unfoldable pub map_status : UpdateStatus → QuoteUpdate → Option UpdateDto
  map_status pending update = some (update_dto update none [])
  map_status processing update = some (update_dto update none [])
  map_status completed update = map_completed update update.quote
  map_status failed update = map_failed update update.failure_code

  unfoldable pub map_update : QuoteUpdate → Option UpdateDto
  unfolding map_status map_quote
  map_update update = map_status update.status update
