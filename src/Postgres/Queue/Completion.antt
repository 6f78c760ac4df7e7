-- ===== src/Postgres/Queue/Completion.antt =====
-- `Complete` of internal/adapter/postgres/queue.go: the update and the latest quote in one
-- transaction. `numeric` is PostgreSQL's cast of a text to NUMERIC(30,15), printed again; it has
-- no result where the cast or the column's CHECK fails.
use fx_quotes.Prelude.{
  ℕ, Bool, ◌&&◌, ◌||◌, List, [], ◌∷◌, Option, none, some, Result, ok, err, ltb, ◌==◌, if◌then◌else◌,
}
use fx_quotes.Text.{Text, text_eq}
use fx_quotes.Entity.Pair.{print}
use fx_quotes.Entity.Update.{QuoteUpdate, completed}
use fx_quotes.Usecase.Commands.{
  Fault, StoreError, lost_ownership, constraint_violated, CompleteCommand,
}
use fx_quotes.Postgres.Schema.{Row, LatestRow}
use fx_quotes.Postgres.Tx.{Tx, lift, trip, Commit, transaction, update_rows, ◌>>=◌, ◌>>◌}
use fx_quotes.Postgres.Row.{scan_update}
use fx_quotes.Postgres.Queue.{Clock, first_row, owned}

-- How the calls of the driver end.
pub record CompleteIo : Type 0 where
  pub begin : Option Fault
  pub update : Option Fault
  pub latest : Option Fault
  pub commit : Commit

abbrev pub or_violated {ℓ} : {A : Type ℓ} → Option A → Result StoreError A
or_violated none = err constraint_violated
or_violated (some a) = ok a

unfoldable pub completed_row : Clock → CompleteCommand → Text → Row → Row
completed_row clock command rate r = record r {
  status = completed;
  lease_until = none;
  finished_at = some (clock.wall r.request_seq);
  rate = some rate;
  provider = some command.quote.provider;
  source_date = some command.quote.source_date;
}

unfoldable pub owned_pair : CompleteCommand → Row → Bool
owned_pair command r =
    owned command.update_id command.attempt r && text_eq r.pair (print command.quote.pair)

unfoldable pub find_row : Text → List Row → Option Row
find_row id [] = none
find_row id (r ∷ rs) = if text_eq r.id id then some r else find_row id rs

-- The values of `INSERT INTO latest_quotes … SELECT …`; a NULL among them is refused.
abbrev latest_values :
    Row → Option Text → Option Text → Option ℕ → Option ℕ → Result StoreError LatestRow
latest_values r (some rate) (some provider) (some source_date) (some finished_at) = ok (record {
  pair = r.pair;
  update_id = r.id;
  request_seq = r.request_seq;
  rate = rate;
  provider = provider;
  source_date = source_date;
  updated_at = finished_at;
})
latest_values r _ _ _ _ = err constraint_violated

abbrev pub latest_of : Row → Result StoreError LatestRow
latest_of r = latest_values r r.rate r.provider r.source_date r.finished_at

-- `(EXCLUDED.source_date,EXCLUDED.request_seq) > (latest_quotes.source_date,…)`.
unfoldable pub is_newer : LatestRow → LatestRow → Bool
is_newer new old =
    ltb old.source_date new.source_date
    || old.source_date == new.source_date && ltb old.request_seq new.request_seq

-- `ON CONFLICT (pair) DO UPDATE … WHERE …`.
unfoldable pub upsert : LatestRow → List LatestRow → List LatestRow
upsert new [] = new ∷ []
upsert new (l ∷ ls) =
    let rest = upsert new ls in
    if text_eq l.pair new.pair then (if is_newer new l then new else l) ∷ ls else l ∷ rest

abbrev pub insert_latest : Result StoreError LatestRow → Tx (Unit {0})
insert_latest (ok new) db = (record db { latest = upsert new db.latest }, ok tt)
insert_latest (err e) db = (db, err e)

abbrev pub upsert_row : Option Row → Tx (Unit {0})
upsert_row none db = (db, ok tt)
upsert_row (some r) db = insert_latest (latest_of r) db

unfoldable pub advance_latest : Text → Tx (Unit {0})
advance_latest id db = upsert_row (find_row id db.updates) db

-- `Complete` behind the UPDATE, which has returned `rows`.
unfoldable pub after_update : CompleteIo → CompleteCommand → List Row → Tx QuoteUpdate
after_update io command rows = do
  row ← lift (first_row lost_ownership rows)
  update ← lift (scan_update row)
  trip io.latest
  advance_latest command.update_id
  lift (ok update)

module _ (numeric : Text → Option Text) where
  unfoldable pub complete_body : CompleteIo → Clock → CompleteCommand → Tx QuoteUpdate
  complete_body io clock command = do
    trip io.begin
    trip io.update
    rate ← lift (or_violated (numeric command.quote.rate.decimal))
    rows ← update_rows (λ _. owned_pair command) (completed_row clock command rate)
    after_update io command rows

  unfoldable pub complete : CompleteIo → Clock → CompleteCommand → Tx QuoteUpdate
  complete io clock command = transaction io.commit (complete_body io clock command)
