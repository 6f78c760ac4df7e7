-- ===== src/Postgres/Queue.antt =====
-- internal/adapter/postgres/queue.go. The environment of an operation is an argument: how its
-- statements end, the clocks, and the rows that other transactions hold locked.
pub mod Completion
pub mod Recovery
use fx_quotes.Prelude.{
  ℕ, ◌+◌, ◌/◌, Bool, true, false, not, ◌&&◌, ◌||◌, List, [], ◌∷◌, Option, none, some, Result, ok,
  err, ltb, leb, ◌==◌, if◌then◌else◌, max,
}
use fx_quotes.Text.{Text, codes, text_eq}
use fx_quotes.Entity.Pair.{print}
use fx_quotes.Entity.Update.{
  QuoteUpdate, Quote, pending, processing, completed, failed, attempts_exhausted,
}
use fx_quotes.Usecase.Commands.{
  Fault, deadline_exceeded, StoreError, no_work, lost_ownership, database, constraint_violated,
  CompleteCommand, RetryCommand, FailCommand,
}
use fx_quotes.Postgres.Schema.{Row, LatestRow, Db, is_processing, is_pending}
use fx_quotes.Postgres.Tx.{Tx, lift, trip, Commit, transaction, update_rows, ◌>>=◌, ◌>>◌}
use fx_quotes.Postgres.Row.{scan_update}
use fx_quotes.Postgres.Select.{select, id_in}

-- `statement_timestamp()`, and `clock_timestamp()` as it reads at the row with a request_seq.
pub record Clock : Type 0 where
  pub statement : ℕ
  pub wall : ℕ → ℕ

abbrev pub first_row : StoreError → List Row → Result StoreError Row
first_row e [] = err e
first_row e (r ∷ rs) = ok r

-- `Duration.Microseconds()`.
abbrev pub microseconds : ℕ → ℕ
microseconds nanoseconds = nanoseconds / 1000

-- `column <= instant`, which NULL does not pass.
abbrev pub is_due : ℕ → Option ℕ → Bool
is_due now none = false
is_due now (some t) = leb t now

abbrev pub or_zero_time : Option ℕ → ℕ
or_zero_time none = 0
or_zero_time (some t) = t

abbrev pub ready_at : Row → ℕ
ready_at r = or_zero_time r.next_attempt_at

abbrev pub expires_at : Row → ℕ
expires_at r = or_zero_time r.lease_until

unfoldable pub is_ready : (Row → Bool) → Clock → Row → Bool
is_ready locked clock r =
    is_pending r.status && is_due clock.statement r.next_attempt_at && not (locked r)

unfoldable pub claimed : Clock → ℕ → Row → Row
claimed clock lease_duration r = record r {
  status = processing;
  attempt = r.attempt + 1;
  next_attempt_at = none;
  lease_until = some (clock.wall r.request_seq + microseconds lease_duration);
}

unfoldable pub to_claim : (Row → Bool) → Clock → List Row → List Row
to_claim locked clock rows = select (is_ready locked clock) ready_at 1 rows

unfoldable pub claim_next : Commit → (Row → Bool) → Clock → ℕ → Tx QuoteUpdate
claim_next commit locked clock lease_duration = do
  rows ←
      transaction commit
        (update_rows (λ all. id_in (to_claim locked clock all)) (claimed clock lease_duration))
  row ← lift (first_row no_work rows)
  lift (scan_update row)

-- `id=$1 AND status='processing' AND attempt=$2`.
unfoldable pub owned : Text → ℕ → Row → Bool
owned id attempt r = text_eq r.id id && is_processing r.status && r.attempt == attempt

unfoldable pub retried : Clock → ℕ → Row → Row
retried clock retry_after r = record r {
  status = pending;
  lease_until = none;
  next_attempt_at = some (clock.wall r.request_seq + microseconds retry_after);
}

unfoldable pub retry : Commit → Clock → RetryCommand → Tx QuoteUpdate
retry commit clock command = do
  rows ← transaction commit (
      update_rows (λ _. owned command.update_id command.attempt)
        (retried clock command.retry_after))
  row ← lift (first_row lost_ownership rows)
  lift (scan_update row)

unfoldable pub failed_row : Clock → Text → Row → Row
failed_row clock code r = record r {
  status = failed;
  lease_until = none;
  finished_at = some (clock.wall r.request_seq);
  failure_code = some code;
}

unfoldable pub fail : Commit → Clock → FailCommand → Tx QuoteUpdate
fail commit clock command = do
  rows ←
      transaction commit
        (update_rows (λ _. owned command.update_id command.attempt) (failed_row clock command.code))
  row ← lift (first_row lost_ownership rows)
  lift (scan_update row)
