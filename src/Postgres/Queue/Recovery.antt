-- ===== src/Postgres/Queue/Recovery.antt =====
-- `RecoverExpired` of internal/adapter/postgres/queue.go, and the size of its batch.
use fx_quotes.Prelude.{
  ℕ, ◌/◌, Bool, true, false, not, ◌&&◌, List, [], ◌∷◌, none, some, Result, ok, err, ◌>>=◌, ltb,
  if◌then◌else◌, max,
}
use fx_quotes.Entity.Update.{QuoteUpdate, pending, failed, attempts_exhausted}
use fx_quotes.Usecase.Commands.{deadline_exceeded, StoreError, database}
use fx_quotes.Postgres.Schema.{Row, Db, is_processing}
use fx_quotes.Postgres.Tx.{Tx, lift, Commit, transaction, update_rows, ◌>>=◌ as ◌>>=ₜ◌}
use fx_quotes.Postgres.Row.{scan_update}
use fx_quotes.Postgres.Select.{select, id_in}
use fx_quotes.Postgres.Queue.{Clock, is_due, expires_at}

unfoldable pub is_expired : (Row → Bool) → Clock → Row → Bool
is_expired locked clock r =
    is_processing r.status && is_due clock.statement r.lease_until && not (locked r)

unfoldable pub to_recover : (Row → Bool) → Clock → ℕ → List Row → List Row
to_recover locked clock batch rows = select (is_expired locked clock) expires_at batch rows

-- The `CASE` expressions: back to the queue, or failed where the attempts are used up.
unfoldable pub recovered : Clock → ℕ → Row → Row
recovered clock max_attempts r =
    if ltb r.attempt max_attempts
    then record r {
      status = pending;
      lease_until = none;
      next_attempt_at = some (clock.wall r.request_seq);
      finished_at = none;
      failure_code = none;
    }
    else record r {
      status = failed;
      lease_until = none;
      next_attempt_at = none;
      finished_at = some (clock.wall r.request_seq);
      failure_code = some attempts_exhausted;
    }

unfoldable pub scan_all : List Row → Result StoreError (List QuoteUpdate)
scan_all [] = ok []
scan_all (r ∷ rs) = do update ← scan_update r; updates ← scan_all rs; ok (update ∷ updates)

-- The statement of `recoverExpiredBatch`.
unfoldable pub recover_rows : Commit → (Row → Bool) → Clock → ℕ → ℕ → Tx (List Row)
recover_rows commit locked clock max_attempts batch =
    transaction commit (
      update_rows (λ all. id_in (to_recover locked clock batch all)) (recovered clock max_attempts))

unfoldable pub recover_expired_batch : Commit → (Row → Bool) → Clock → ℕ → ℕ → Tx (List QuoteUpdate)
recover_expired_batch commit locked clock max_attempts batch =
    recover_rows commit locked clock max_attempts batch >>=ₜ λ rows. lift (scan_all rows)

abbrev is_deadline {ℓ} : {A : Type ℓ} → Result StoreError A → Bool
is_deadline (err (database deadline_exceeded)) = true
is_deadline _ = false

-- The compare-and-swap after a pass: `parent_done` is `ctx.Err() != nil`.
unfoldable pub next_batch : Bool → Result StoreError (List QuoteUpdate) → ℕ → ℕ
next_batch parent_done result batch =
    if not parent_done && is_deadline result && ltb 1 batch then max 1 (batch / 2) else batch

abbrev pub recovery_batch_size : ℕ
recovery_batch_size = 100

-- A pass: the new batch size, the database and the result.
unfoldable pub recover_expired :
    Commit
    → (Row → Bool)
    → Clock
    → Bool
    → ℕ
    → ℕ
    → Db
    → ℕ × Db × Result StoreError (List QuoteUpdate)
recover_expired commit locked clock parent_done max_attempts batch db =
    let (db', result) = recover_expired_batch commit locked clock max_attempts batch db in
    (next_batch parent_done result batch, db', result)
