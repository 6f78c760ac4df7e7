-- ===== src/Entity/Update.antt =====
-- internal/entity/quote.go and internal/entity/update.go. An instant is a number of microseconds,
-- the precision of the database; a source date is a number of days.
use fx_quotes.Prelude.{ℕ, Option}
use fx_quotes.Text.{Text, codes}
use fx_quotes.Entity.Pair.{Pair}
use fx_quotes.Entity.Rate.{Rate}

pub record Quote : Type 0 where
  pub pair : Pair
  pub rate : Rate
  pub provider : Text
  pub source_date : ℕ
  pub updated_at : ℕ

pub data UpdateStatus : Type 0 where
  pending processing completed failed : UpdateStatus

-- `type FailureCode string`; the empty text is no failure.
abbrev pub FailureCode : Type 0
FailureCode = Text

abbrev pub provider_permanent : FailureCode
provider_permanent = codes "provider_permanent"

abbrev pub attempts_exhausted : FailureCode
attempts_exhausted = codes "attempts_exhausted"

pub record QuoteUpdate : Type 0 where
  pub id : Text
  pub pair : Pair
  pub status : UpdateStatus
  pub attempt : ℕ
  pub quote : Option Quote
  pub failure_code : FailureCode
  pub created_at : ℕ
