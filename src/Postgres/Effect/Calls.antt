-- ===== src/Postgres/Effect/Calls.antt =====
-- The effect of each call of the store.
use fx_quotes.Prelude.{
  ℕ, ◌≤◌, ◌<◌, ◌≡◌, refl, inl, inr, Bool, true, ltb, List, [], ◌∷◌, Option, none, some, Result, ok,
  err, arith, Bool-cases, &&-both,
}
use fx_quotes.Text.{Text}
use fx_quotes.Entity.Update.{pending, processing}
use fx_quotes.Usecase.Commands.{
  Fault, no_work, lost_ownership, StoreError, CompleteCommand, RetryCommand, FailCommand,
}
use fx_quotes.Postgres.Schema.{Row, LatestRow, Db}
use fx_quotes.Postgres.Row.{scan_update}
use fx_quotes.Postgres.Tx.{Tx, Commit, bind_result, lift, trip, ◌>>=◌, finish, update_rows}
use fx_quotes.Postgres.Select.{id_in}
use fx_quotes.Postgres.Select.Members.{Distinct, id_in-select}
use fx_quotes.Postgres.Queue.{
  Clock, first_row, ready_at, expires_at, is_ready, claimed, to_claim, claim_next, owned, retried,
  retry, failed_row, fail,
}
use fx_quotes.Postgres.Queue.Completion.{
  CompleteIo, completed_row, owned_pair, complete_body, complete, after_update, advance_latest,
  latest_of, insert_latest, upsert_row, find_row, or_violated,
}
use fx_quotes.Postgres.Queue.Recovery.{
  is_expired, to_recover, recovered, scan_all, recover_rows, recover_expired_batch,
}
use fx_quotes.Postgres.Effect.{
  SameTask, Rules, Edge, lease, release, succeed, give_up, Effect, kept, Effect-same, finish-Effect,
  update_rows-Effect,
}

claimed-Edge :
    {rules : Rules} (clock : Clock) (duration : ℕ) (r : Row)
    → r.status ≡ pending
    → SameTask r (claimed clock duration r) × Edge rules r (claimed clock duration r)
unfolding claimed
claimed-Edge clock duration r h = (ground arith, lease h refl refl)

retried-Edge :
    {rules : Rules} (clock : Clock) (after : ℕ) (r : Row)
    → r.status ≡ processing
    → r.attempt < rules.retry_below
    → SameTask r (retried clock after r) × Edge rules r (retried clock after r)
unfolding retried
retried-Edge clock after r h below = (ground arith, release h refl refl below)

failed_row-Edge :
    {rules : Rules} (clock : Clock) (code : Text) (r : Row)
    → r.status ≡ processing
    → SameTask r (failed_row clock code r) × Edge rules r (failed_row clock code r)
unfolding failed_row
failed_row-Edge clock code r h = (ground arith, give_up h refl refl)

pub completed_row-Edge :
    {rules : Rules} (clock : Clock) (command : CompleteCommand) (rate : Text) (r : Row)
    → rules.may_succeed ≡ true
    → r.status ≡ processing
    → SameTask r (completed_row clock command rate r)
      × Edge rules r (completed_row clock command rate r)
unfolding completed_row
completed_row-Edge clock command rate r may h = (ground arith, succeed h refl refl may)

recovered-Edge :
    {rules : Rules} (clock : Clock) (max_attempts : ℕ) (r : Row)
    → max_attempts ≤ rules.retry_below
    → r.status ≡ processing
    → SameTask r (recovered clock max_attempts r) × Edge rules r (recovered clock max_attempts r)
unfolding recovered
recovered-Edge clock max_attempts r enough h = elim (Bool-cases (ltb r.attempt max_attempts)) [
  | inl again ↦ rw again (ground arith, release h refl refl (ground arith))
  | inr spent ↦ rw spent (ground arith, give_up h refl refl)
]

pub owned-processing :
    (id : Text) (attempt : ℕ) (r : Row) → owned id attempt r ≡ true → r.status ≡ processing
unfolding owned
owned-processing id attempt r h = ground arith

pub owned-attempt :
    (id : Text) (attempt : ℕ) (r : Row) → owned id attempt r ≡ true → r.attempt ≡ attempt
unfolding owned
owned-attempt id attempt r h = ground arith

pub owned_pair-processing :
    (command : CompleteCommand) (r : Row) → owned_pair command r ≡ true → r.status ≡ processing
unfolding owned_pair
owned_pair-processing command r h =
    owned-processing command.update_id command.attempt r (&&-both _ _ h).0

is_ready-pending :
    (locked : Row → Bool) (clock : Clock) (r : Row)
    → is_ready locked clock r ≡ true
    → r.status ≡ pending
unfolding is_ready
is_ready-pending locked clock r h = ground arith

is_expired-processing :
    (locked : Row → Bool) (clock : Clock) (r : Row)
    → is_expired locked clock r ≡ true
    → r.status ≡ processing
unfolding is_expired
is_expired-processing locked clock r h = ground arith

-- What reads after a statement leaves the database as it is.
pub bind_result-kept :
    {A B : Type 0} (r : Db × Result StoreError A) (f : A → Tx B)
    → ((a : A) (db : Db) → (f a db).0 ≡ db)
    → (bind_result r f).0 ≡ r.0
bind_result-kept (db, ok a) f h = h a db
bind_result-kept (db, err e) f h = refl

-- Scanning the returned row.
pub first-kept :
    {A : Type 0} (e : StoreError) (f : Row → Result StoreError A) (rows : List Row) (db : Db)
    → (bind_result (db, first_row e rows) (λ row. lift (f row))).0 ≡ db
first-kept e f [] db = refl
first-kept e f (r ∷ rows) db = refl

pub claim_next-Effect :
    {rules : Rules} (commit : Commit) (locked : Row → Bool) (clock : Clock) (duration : ℕ) (db : Db)
    → Distinct db.updates
    → Effect rules db (claim_next commit locked clock duration db).0
unfolding claim_next
claim_next-Effect commit locked clock duration db d =
    let where_ : List Row → Row → Bool = λ all. id_in (to_claim locked clock all) in
    let change = claimed clock duration in
    rw
      (bind_result-kept (finish commit db (update_rows where_ change db))
        (λ rows. lift (first_row no_work rows) >>= λ row. lift (scan_update row))
        (first-kept no_work scan_update))
      (finish-Effect commit db _ (
        update_rows-Effect where_ change db λ r m h. claimed-Edge clock duration r (
          is_ready-pending locked clock r
            (id_in-select (is_ready locked clock) ready_at 1 db.updates d m
              (unfold to_claim in h)).1)))

pub retry-Effect :
    {rules : Rules} (commit : Commit) (clock : Clock) (command : RetryCommand) (db : Db)
    → command.attempt < rules.retry_below
    → Effect rules db (retry commit clock command db).0
unfolding retry
retry-Effect commit clock command db below =
    let where_ : List Row → Row → Bool = λ _. owned command.update_id command.attempt in
    let change = retried clock command.retry_after in
    rw
      (bind_result-kept (finish commit db (update_rows where_ change db))
        (λ rows. lift (first_row lost_ownership rows) >>= λ row. lift (scan_update row))
        (first-kept lost_ownership scan_update))
      (finish-Effect commit db _ (
        update_rows-Effect where_ change db λ r m h.
          retried-Edge clock command.retry_after r
            (owned-processing command.update_id command.attempt r h)
            (omega (arith, owned-attempt command.update_id command.attempt r h))))

pub fail-Effect :
    {rules : Rules} (commit : Commit) (clock : Clock) (command : FailCommand) (db : Db)
    → Effect rules db (fail commit clock command db).0
unfolding fail
fail-Effect commit clock command db =
    let where_ : List Row → Row → Bool = λ _. owned command.update_id command.attempt in
    let change = failed_row clock command.code in
    rw
      (bind_result-kept (finish commit db (update_rows where_ change db))
        (λ rows. lift (first_row lost_ownership rows) >>= λ row. lift (scan_update row))
        (first-kept lost_ownership scan_update))
      (finish-Effect commit db _ (
        update_rows-Effect where_ change db λ r m h.
          failed_row-Edge clock command.code r
            (owned-processing command.update_id command.attempt r h)))

pub recover_expired_batch-Effect :
    {rules : Rules} (commit : Commit) (locked : Row → Bool) (clock : Clock) (max_attempts batch : ℕ)
    (db : Db)
    → max_attempts ≤ rules.retry_below
    → Distinct db.updates
    → Effect rules db (recover_expired_batch commit locked clock max_attempts batch db).0
unfolding recover_expired_batch recover_rows
recover_expired_batch-Effect commit locked clock max_attempts batch db enough d =
    let where_ : List Row → Row → Bool = λ all. id_in (to_recover locked clock batch all) in
    let change = recovered clock max_attempts in
    rw
      (bind_result-kept (finish commit db (update_rows where_ change db))
        (λ rows. lift (scan_all rows)) (λ rows db. refl))
      (finish-Effect commit db _ (
        update_rows-Effect where_ change db λ r m h. recovered-Edge clock max_attempts r enough (
          is_expired-processing locked clock r
            (id_in-select (is_expired locked clock) expires_at batch db.updates d m
              (unfold to_recover in h)).1)))

-- A property of the database after a sequence of actions, from the first action and the rest.
pub bind_result-after {ℓ} :
    {A B : Type 0} (P : Db → Type ℓ) (r : Db × Result StoreError A) (f : A → Tx B)
    → P r.0
    → ((a : A) → r.1 ≡ ok a → P (f a r.0).0)
    → P (bind_result r f).0
bind_result-after P (db, ok a) f start rest = rest a refl
bind_result-after P (db, err e) f start rest = start

pub trip-after {ℓ} :
    {B : Type 0} (P : Db → Type ℓ) (t : Option Fault) (k : Tx B) (db : Db)
    → P db
    → P (k db).0
    → P (bind_result (trip t db) (λ _. k)).0
trip-after P none k db start rest = rest
trip-after P (some f) k db start rest = start

abbrev SameRows : Db → Db → Type 0
SameRows db out = (out.updates ≡ db.updates) × (out.next_seq ≡ db.next_seq)

insert_latest-SameRows :
    (r : Result StoreError LatestRow) (db : Db) → SameRows db (insert_latest r db).0
insert_latest-SameRows (ok l) db = (refl, refl)
insert_latest-SameRows (err e) db = (refl, refl)

upsert_row-SameRows : (r : Option Row) (db : Db) → SameRows db (upsert_row r db).0
upsert_row-SameRows none db = (refl, refl)
upsert_row-SameRows (some r) db = insert_latest-SameRows (latest_of r) db

advance_latest-SameRows : (id : Text) (db : Db) → SameRows db (advance_latest id db).0
unfolding advance_latest
advance_latest-SameRows id db = upsert_row-SameRows (find_row id db.updates) db

after_update-SameRows :
    (io : CompleteIo) (command : CompleteCommand) (rows : List Row) (db : Db)
    → SameRows db (after_update io command rows db).0
unfolding after_update
after_update-SameRows io command rows db =
    let same : SameRows db db = (refl, refl) in
    bind_result-after (SameRows db) (db, first_row lost_ownership rows) _ same
      λ row found.
        bind_result-after (SameRows db) (db, scan_update row) _ same
          λ update scanned. trip-after (SameRows db) io.latest _ db same (
            bind_result-after (SameRows db) (advance_latest command.update_id db) _
              (advance_latest-SameRows command.update_id db)
              λ done ended. advance_latest-SameRows command.update_id db)

module _ (numeric : Text → Option Text) where
  complete_body-Effect :
      {rules : Rules} (io : CompleteIo) (clock : Clock) (command : CompleteCommand) (db : Db)
      → rules.may_succeed ≡ true
      → Effect rules db (complete_body numeric io clock command db).0
  unfolding complete_body
  complete_body-Effect {rules} io clock command db may =
      let E = Effect rules db in
      let start : Effect rules db db = kept refl (omega arith) in
      trip-after E io.begin _ db start (
        trip-after E io.update _ db start (
          bind_result-after E (db, or_violated (numeric command.quote.rate.decimal)) _ start
            λ rate cast.
              let change = completed_row clock command rate in
              let out = update_rows (λ _. owned_pair command) change db in
              let first =
                update_rows-Effect {rules = rules} (λ _. owned_pair command) change db
                  (λ r m h.
                    completed_row-Edge clock command rate r may
                      (owned_pair-processing command r h)) in
              bind_result-after E out _ first λ rows returned.
                let same = after_update-SameRows io command rows out.0 in
                Effect-same first same.0 same.1))

  pub complete-Effect :
      {rules : Rules} (io : CompleteIo) (clock : Clock) (command : CompleteCommand) (db : Db)
      → rules.may_succeed ≡ true
      → Effect rules db (complete numeric io clock command db).0
  unfolding complete
  complete-Effect io clock command db may =
      finish-Effect io.commit db _ (complete_body-Effect io clock command db may)
