-- ===== src/Examples/Postgres.antt =====
-- The store at concrete histories.
use fx_quotes.Prelude.{
  false, ok, filter, ◌⊎◌, ◌≡◌, refl, List, [], ◌∷◌, none, some, err, Memᴰ, inr, map, ◌≤◌, ◌++◌,
}
use fx_quotes.Text.{codes, text_eq, byte_length, utf8}
use fx_quotes.Entity.Pair.{parse_pair, print}
use fx_quotes.Entity.Pair.RoundTrip.{is_one_of}
use fx_quotes.Entity.Rate.{parse_rate}
use fx_quotes.Entity.Update.{QuoteUpdate, UpdateStatus, pending, completed, provider_permanent}
use fx_quotes.Postgres.Schema.{Row, Db, state_shape, key_check, failure_check, row_check}
use fx_quotes.Usecase.Commands.{lost_ownership, no_work}
use fx_quotes.Postgres.Tx.{finish, update_rows, answered}
use fx_quotes.Postgres.Row.{scan_update}
use fx_quotes.Postgres.Select.{not_after, insert_by, sort_by, select, id_in}
use fx_quotes.Postgres.Queue.{
  ready_at, is_ready, claimed, to_claim, claim_next, owned, retried, retry, failed_row, fail,
}
use fx_quotes.Postgres.Queue.Completion.{
  completed_row, owned_pair, find_row, is_newer, upsert, advance_latest, after_update,
  complete_body, complete,
}
use fx_quotes.Postgres.Queue.Recovery.{
  is_expired, to_recover, recovered, scan_all, recover_rows, recover_expired_batch,
}
use fx_quotes.Postgres.Store.{
  existing, active_count, new_row, insert_row, admit_new, admit_existing, admit, create_body,
  create_or_get,
}
use fx_quotes.Postgres.Steps.{Call, step, run, empty_db}
use fx_quotes.Postgres.Invariant.{Inv, run-Inv, run-empty-Inv}
use fx_quotes.Postgres.Effect.{SameTask}
use fx_quotes.Postgres.Lifecycle.{run-finished, run-SameTask}
use fx_quotes.Postgres.Fencing.{stale_attempt_fenced}
use fx_quotes.Postgres.Latest.{IsLatest}
use fx_quotes.Postgres.Idempotency.{IsHealthy, create_or_get-existing}
use fx_quotes.Postgres.Claim.{IsFirst, take_row, claim_next-IsFirst}
use fx_quotes.Postgres.Latest.History.{run-IsLatest}
use fx_quotes.Examples.Entity.{pad_numeric}
use fx_quotes.Examples.World.{
  pair, create_io, unlocked, limits, waiting, finishing, first_id, complete_io, clock_at, quote,
}

-- What a run computes with.
unfoldable pub running : Db → List Call → Db
unfolding run step create_or_get create_body admit admit_existing admit_new insert_row new_row
    active_count existing complete complete_body after_update advance_latest upsert is_newer
    find_row owned_pair completed_row fail failed_row retry retried owned claim_next to_claim
    claimed is_ready id_in select sort_by insert_by not_after scan_update update_rows finish
    row_check state_shape key_check failure_check recover_expired_batch recover_rows scan_all
    recovered to_recover is_expired parse_rate parse_pair is_one_of text_eq byte_length utf8
    pad_numeric
running db calls = run pad_numeric limits db calls

abbrev statuses : Db → List UpdateStatus
statuses db = map (λ r. r.status) db.updates

waiting_is_pending : statuses (run pad_numeric limits empty_db waiting) ≡ pending ∷ []
unfolding running
waiting_is_pending = refl

history_completes :
    statuses (run pad_numeric limits (run pad_numeric limits empty_db waiting) finishing)
    ≡ completed ∷ []
unfolding running
history_completes = refl

abbrev pub waiting_db : Db
waiting_db = run pad_numeric limits empty_db waiting

pub waiting_db-Inv : Inv 2 waiting_db
waiting_db-Inv = run-empty-Inv pad_numeric limits waiting

abbrev pub waiting_row : Row
waiting_row = record {
  id = first_id;
  request_seq = 1;
  pair = codes "USD/EUR";
  idempotency_key = some (codes "key");
  status = pending;
  attempt = 1;
  created_at = 10;
  next_attempt_at = some 31;
  lease_until = none;
  finished_at = none;
  rate = none;
  provider = none;
  source_date = none;
  failure_code = none;
}

pub waiting_row-In : Memᴰ waiting_row waiting_db.updates
unfolding running
waiting_row-In = Memᴰ.head refl

abbrev done_db : Db
done_db = run pad_numeric limits waiting_db finishing

abbrev done_row : Row
done_row = record {
  id = first_id;
  request_seq = 1;
  pair = codes "USD/EUR";
  idempotency_key = some (codes "key");
  status = completed;
  attempt = 2;
  created_at = 10;
  next_attempt_at = none;
  lease_until = none;
  finished_at = some 50;
  rate = some (codes "0.923400000000000");
  provider = some (codes "frankfurter-ecb");
  source_date = some 20000;
  failure_code = none;
}

done_row-In : Memᴰ done_row done_db.updates
unfolding running
done_row-In = Memᴰ.head refl

empty-IsLatest : IsLatest [] []
empty-IsLatest = record { from_rows = λ l m. elim m [ ]; covers = λ r l m c. elim m [ ] }

run-empty-Inv_example : Inv 2 (run pad_numeric limits empty_db waiting)
run-empty-Inv_example = run-empty-Inv pad_numeric limits waiting

run-finished_example : Memᴰ done_row (run pad_numeric limits done_db waiting).updates
run-finished_example =
    run-finished pad_numeric limits done_db waiting done_row
      (run-Inv pad_numeric limits waiting_db finishing waiting_db-Inv) done_row-In refl

run-SameTask_example :
    (s : Row) × Memᴰ s done_db.updates × (SameTask waiting_row s × (1 ≤ s.attempt))
run-SameTask_example =
    run-SameTask pad_numeric limits waiting_db finishing waiting_row waiting_db-Inv waiting_row-In

stale_attempt_fenced_example :
    (complete pad_numeric complete_io
        (clock_at 60)
        (record { update_id = first_id; attempt = 1; quote = quote })
        done_db
      ≡ (done_db, err lost_ownership))
    × (retry answered
          (clock_at 60)
          (record { update_id = first_id; attempt = 1; retry_after = 7 })
          done_db
        ≡ (done_db, err lost_ownership))
    × (fail answered
          (clock_at 60)
          (record { update_id = first_id; attempt = 1; code = provider_permanent })
          done_db
        ≡ (done_db, err lost_ownership))
unfolding pad_numeric
stale_attempt_fenced_example =
    stale_attempt_fenced pad_numeric limits waiting_db finishing waiting_row 1 complete_io answered
      (clock_at 60) quote 7 provider_permanent waiting_db-Inv waiting_row-In (inr (refl, refl))

run-IsLatest_example :
    let db = run pad_numeric limits empty_db (waiting ++ finishing) in IsLatest db.updates db.latest
unfolding run
run-IsLatest_example =
    run-IsLatest pad_numeric limits empty_db (waiting ++ finishing)
      (run-empty-Inv pad_numeric limits []) empty-IsLatest

claim_next-IsFirst_example :
    let ready = filter (is_ready unlocked (clock_at 40)) waiting_db.updates in
    let out = claim_next answered unlocked (clock_at 40) 15_000_000_000 waiting_db in
    ((ready ≡ []) × (out ≡ (waiting_db, err no_work)))
    ⊎ ((r : Row) × (update : QuoteUpdate) × Memᴰ r ready
        × IsFirst ready_at r ready
        × (scan_update (claimed (clock_at 40) 15_000_000_000 r) ≡ ok update)
        × (out ≡ (take_row (clock_at 40) 15_000_000_000 r waiting_db, ok update)))
claim_next-IsFirst_example =
    claim_next-IsFirst unlocked (clock_at 40) 15_000_000_000 waiting_db 2 waiting_db-Inv

pub create_io-IsHealthy : IsHealthy create_io
create_io-IsHealthy = record {
  gate = refl;
  begin = refl;
  lock = refl;
  random = refl;
  query = refl;
  commit = refl;
}

abbrev pub waiting_update : QuoteUpdate
waiting_update = record {
  id = first_id;
  pair = pair;
  status = pending;
  attempt = 1;
  quote = none;
  failure_code = [];
  created_at = 10;
}

pub waiting_row-scanned : scan_update waiting_row ≡ ok waiting_update
unfolding running
waiting_row-scanned = refl

pair-parsed : parse_pair (print pair) ≡ ok pair
unfolding running
pair-parsed = refl

create_or_get-existing_example :
    create_or_get 2 create_io (record { pair = pair; idempotency_key = codes "key" }) waiting_db
    ≡ (waiting_db, ok (waiting_update, false))
unfolding text_eq
create_or_get-existing_example =
    create_or_get-existing 2 create_io waiting_db waiting_row pair (codes "key") create_io-IsHealthy
      waiting_db-Inv waiting_row-In refl waiting_row-scanned pair-parsed
