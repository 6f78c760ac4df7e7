-- ===== src/Postgres/Schema.antt =====
-- internal/adapter/postgres/migrations/001_quotes.sql: the two tables and their constraints.
use fx_quotes.Prelude.{ℕ, Bool, true, false, not, ◌&&◌, ◌||◌, List, Option, none, some, ltb, leb}
use fx_quotes.Text.{Text, text_eq, is_empty, byte_length}
use fx_quotes.Entity.Pair.RoundTrip.{pair_texts, is_one_of}
use fx_quotes.Entity.Update.{
  UpdateStatus, pending, processing, completed, failed, provider_permanent, attempts_exhausted,
}

-- A row of `quote_updates`. The rate is the text that `rate::text` prints.
pub record Row : Type 0 where
  pub id : Text
  pub request_seq : ℕ
  pub pair : Text
  pub idempotency_key : Option Text
  pub status : UpdateStatus
  pub attempt : ℕ
  pub created_at : ℕ
  pub next_attempt_at : Option ℕ
  pub lease_until : Option ℕ
  pub finished_at : Option ℕ
  pub rate : Option Text
  pub provider : Option Text
  pub source_date : Option ℕ
  pub failure_code : Option Text

-- A row of `latest_quotes`.
pub record LatestRow : Type 0 where
  pub pair : Text
  pub update_id : Text
  pub request_seq : ℕ
  pub rate : Text
  pub provider : Text
  pub source_date : ℕ
  pub updated_at : ℕ

-- The rows of `quote_updates` in the order of their insertion; `next_seq` is the next value of the
-- identity column.
pub record Db : Type 0 where
  pub updates : List Row
  pub latest : List LatestRow
  pub next_seq : ℕ

abbrev pub is_some {ℓ} : {A : Type ℓ} → Option A → Bool
is_some none = false
is_some (some a) = true

abbrev pub is_none {ℓ} : {A : Type ℓ} → Option A → Bool
is_none none = true
is_none (some a) = false

abbrev pub is_processing : UpdateStatus → Bool
is_processing processing = true
is_processing _ = false

abbrev pub is_pending : UpdateStatus → Bool
is_pending pending = true
is_pending _ = false

-- `status IN ('pending','processing')`.
abbrev pub is_active : UpdateStatus → Bool
is_active pending = true
is_active processing = true
is_active _ = false

no_result : Row → Bool
no_result r = is_none r.rate && is_none r.provider && is_none r.source_date

-- The constraint `update_state_shape`.
unfoldable pub state_shape : UpdateStatus → Row → Bool
unfolding no_result
state_shape pending r =
    is_some r.next_attempt_at
    && is_none r.lease_until
    && is_none r.finished_at
    && no_result r
    && is_none r.failure_code
state_shape processing r =
    ltb 0 r.attempt
    && is_none r.next_attempt_at
    && is_some r.lease_until
    && is_none r.finished_at
    && no_result r
    && is_none r.failure_code
state_shape completed r =
    ltb 0 r.attempt
    && is_none r.next_attempt_at
    && is_none r.lease_until
    && is_some r.finished_at
    && is_some r.rate
    && is_some r.provider
    && is_some r.source_date
    && is_none r.failure_code
state_shape failed r =
    ltb 0 r.attempt
    && is_none r.next_attempt_at
    && is_none r.lease_until
    && is_some r.finished_at
    && no_result r
    && is_some r.failure_code

-- A CHECK that NULL passes.
abbrev pub null_or : (Text → Bool) → Option Text → Bool
null_or p none = true
null_or p (some t) = p t

unfoldable pub key_check : Text → Bool
key_check key = not (is_empty key) && leb (byte_length key) 128

unfoldable pub failure_check : Text → Bool
failure_check code = text_eq code provider_permanent || text_eq code attempts_exhausted

-- The CHECK constraints of a row but for that of `rate`, which goes with the cast to NUMERIC.
unfoldable pub row_check : Row → Bool
row_check r =
    is_one_of r.pair pair_texts
    && null_or key_check r.idempotency_key
    && null_or (λ t. not (is_empty t)) r.provider
    && null_or failure_check r.failure_code
    && state_shape r.status r
