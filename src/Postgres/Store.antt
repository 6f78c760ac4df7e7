-- ===== src/Postgres/Store.antt =====
-- internal/adapter/postgres/store.go: admission and the reads.
use fx_quotes.Prelude.{
  ℕ, ◌+◌, Bool, true, false, not, ◌&&◌, ◌||◌, List, [], ◌∷◌, ◌++◌, Option, none, some, Result, ok,
  err, ltb, if◌then◌else◌, length, filter,
}
use fx_quotes.Text.{Text, text_eq, byte_length}
use fx_quotes.Entity.Pair.{Pair, ParseError, parse_pair, print}
use fx_quotes.Entity.Rate.{parse_rate}
use fx_quotes.Entity.Update.{Quote, QuoteUpdate, pending}
use fx_quotes.Usecase.Commands.{
  Fault, StoreError, not_found, capacity_exceeded, idempotency_conflict, invalid_idempotency_key,
  constraint_violated, invalid_pair, CreateOrGetCommand, max_idempotency_key_bytes,
}
use fx_quotes.Postgres.Schema.{Row, LatestRow, is_active, row_check}
use fx_quotes.Postgres.Tx.{Tx, lift, trip, Commit, transaction, ◌>>=◌, ◌>>◌}
use fx_quotes.Postgres.Row.{scan_update, or_undecodable}
use fx_quotes.Postgres.Queue.Completion.{find_row}

-- How the wait for the gate and the calls of the driver end, the generated id, and the clock as it
-- reads at the two columns.
pub record CreateIo : Type 0 where
  pub gate : Option Fault
  pub begin : Option Fault
  pub lock : Option Fault
  pub random : Option Fault
  pub query : Option Fault
  pub commit : Commit
  pub new_id : Text
  pub created_at : ℕ
  pub ready_at : ℕ

-- `NULLIF($3,'')`.
abbrev pub nullif_empty : Text → Option Text
nullif_empty [] = none
nullif_empty (c ∷ s) = some (c ∷ s)

-- `idempotency_key=…`, which NULL on either side does not pass.
abbrev pub key_equal : Option Text → Option Text → Bool
key_equal none b = false
key_equal (some a) none = false
key_equal (some a) (some b) = text_eq a b

-- The rows of the subquery `existing`.
unfoldable pub existing : Text → List Row → List Row
existing key rows = filter (λ r. key_equal r.idempotency_key (nullif_empty key)) rows

unfoldable pub active_count : List Row → ℕ
active_count rows = length (filter (λ r. is_active r.status) rows)

unfoldable pub new_row : CreateIo → Text → Text → ℕ → Row
new_row io pair key seq = record {
  id = io.new_id;
  request_seq = seq;
  pair = pair;
  idempotency_key = nullif_empty key;
  status = pending;
  attempt = 0;
  created_at = io.created_at;
  next_attempt_at = some io.ready_at;
  lease_until = none;
  finished_at = none;
  rate = none;
  provider = none;
  source_date = none;
  failure_code = none;
}

abbrev pub id_used : Text → List Row → Bool
id_used id [] = false
id_used id (r ∷ rs) = text_eq r.id id || id_used id rs

-- The INSERT of the subquery `inserted`: a constraint that fails has used up the sequence's value.
unfoldable pub insert_row : Row → Tx (Row × Bool)
insert_row r db =
    if id_used r.id db.updates || not (row_check r)
    then (record db { next_seq = db.next_seq + 1 }, err constraint_violated)
    else (record db { updates = db.updates ++ r ∷ []; next_seq = db.next_seq + 1 }, ok (r, true))

-- The statement with the three subqueries: the row that has the key, or a new one if there is room.
unfoldable pub admit_new : CreateIo → Text → Text → ℕ → Tx (Row × Bool)
admit_new io pair key max_active db =
    if ltb (active_count db.updates) max_active
    then insert_row (new_row io pair key db.next_seq) db
    else (db, err capacity_exceeded)

unfoldable pub admit_existing : CreateIo → Text → Text → ℕ → List Row → Tx (Row × Bool)
admit_existing io pair key max_active [] db = admit_new io pair key max_active db
admit_existing io pair key max_active (r ∷ rs) db = (db, ok (r, false))

unfoldable pub admit : CreateIo → Text → Text → ℕ → Tx (Row × Bool)
admit io pair key max_active db = admit_existing io pair key max_active (existing key db.updates) db

abbrev pub same_pair : Pair → Pair → Bool
same_pair p q = text_eq p.base q.base && text_eq p.quote q.quote

unfoldable pub create_body : ℕ → CreateIo → Pair → Text → Tx (QuoteUpdate × Bool)
create_body max_active io pair key = do
  trip io.begin
  trip io.lock
  trip io.random
  trip io.query
  (row, created) ← admit io (print pair) key max_active
  update ← lift (scan_update row)
  lift (if same_pair update.pair pair then ok (update, created) else err idempotency_conflict)

abbrev pub or_invalid_pair : Result ParseError Pair → Result StoreError Pair
or_invalid_pair (ok p) = ok p
or_invalid_pair (err e) = err invalid_pair

unfoldable pub create_or_get : ℕ → CreateIo → CreateOrGetCommand → Tx (QuoteUpdate × Bool)
create_or_get max_active io command =
    if ltb max_idempotency_key_bytes (byte_length command.idempotency_key)
    then lift (err invalid_idempotency_key)
    else do
      pair ← lift (or_invalid_pair (parse_pair (print command.pair)))
      trip io.gate
      transaction io.commit (create_body max_active io pair command.idempotency_key)

abbrev pub or_not_found {ℓ} : {A : Type ℓ} → Option A → Result StoreError A
or_not_found none = err not_found
or_not_found (some a) = ok a

-- `scan_uuid` is pgx's parse of a UUID, which gives its canonical text.
unfoldable pub get_update : (Text → Option Text) → Option Fault → Text → Tx QuoteUpdate
get_update scan_uuid io id = do
  canonical ← lift (or_not_found (scan_uuid id))
  trip io
  db ← λ d. (d, ok d)
  row ← lift (or_not_found (find_row canonical db.updates))
  lift (scan_update row)

unfoldable pub find_latest : Text → List LatestRow → Option LatestRow
find_latest pair [] = none
find_latest pair (l ∷ ls) = if text_eq l.pair pair then some l else find_latest pair ls

unfoldable pub get_latest : Option Fault → Pair → Tx Quote
get_latest io pair = do
  trip io
  db ← λ d. (d, ok d)
  row ← lift (or_not_found (find_latest (print pair) db.latest))
  rate ← lift (or_undecodable (parse_rate row.rate))
  lift (
      ok (record {
        pair = pair;
        rate = rate;
        provider = row.provider;
        source_date = row.source_date;
        updated_at = row.updated_at;
      }))
