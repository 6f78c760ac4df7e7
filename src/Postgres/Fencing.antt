-- ===== src/Postgres/Fencing.antt =====
-- Fencing: who has lost an attempt can no longer write its result.
use fx_quotes.Prelude.{
  ℕ, ◌<◌, ◌≡◌, ◌≢◌, refl, ◌∙◌, ◌⊎◌, inl, inr, Bool, false, List, [], ◌∷◌, Option, none, some, ok,
  err, arith, Memᴰ, map, filter, All, All-map, All-In, Bool-cases,
}
use fx_quotes.Text.{Text, text_eq}
use fx_quotes.Text.Laws.{text_eq_iff}
use fx_quotes.Entity.Update.{Quote, FailureCode}
use fx_quotes.Usecase.Commands.{
  Fault, StoreError, lost_ownership, database, constraint_violated, CompleteCommand, RetryCommand,
  FailCommand,
}
use fx_quotes.Postgres.Schema.{Row, Db, is_processing}
use fx_quotes.Postgres.Row.{scan_update}
use fx_quotes.Postgres.Tx.{
  Commit, answered, refused, unconfirmed, finish, update_rows, Tx, replace, trip, bind_result, lift,
  ◌>>=◌,
}
use fx_quotes.Postgres.Select.Members.{Distinct, Distinct-eq}
use fx_quotes.Postgres.Queue.{Clock, first_row, owned, retry, retried, fail, failed_row}
use fx_quotes.Postgres.Queue.Completion.{
  CompleteIo, owned_pair, complete_body, complete, after_update, completed_row, or_violated,
}
use fx_quotes.Postgres.Steps.{Call, Limits, run}
use fx_quotes.Postgres.Effect.{Rules, lease, release, succeed, give_up}
use fx_quotes.Postgres.Evolution.{Moves}
use fx_quotes.Postgres.Invariant.{Inv, run-Inv}
use fx_quotes.Postgres.Lifecycle.{run_row}

-- The attempt is over: a later one has begun, or the row is not being processed any more.
abbrev pub Lost : ℕ → Row → Type 0
Lost attempt r = (attempt < r.attempt) ⊎ ((attempt ≡ r.attempt) × (is_processing r.status ≡ false))

pub Lost-Moves :
    (attempt : ℕ) (rules : Rules) (r s : Row) → Moves rules r s → Lost attempt r → Lost attempt s
Lost-Moves a rules r s (same, inl e) l = rw e l
Lost-Moves a rules r s (same, inr (lease p q n)) l = inl (omega arith)
Lost-Moves a rules r s (same, inr (release p q n b)) (inl l) = inl (omega arith)
Lost-Moves a rules r s (same, inr (release p q n b)) (inr l) = cc (rw p at l.1)
Lost-Moves a rules r s (same, inr (succeed p q n m)) (inl l) = inl (omega arith)
Lost-Moves a rules r s (same, inr (succeed p q n m)) (inr l) = cc (rw p at l.1)
Lost-Moves a rules r s (same, inr (give_up p q n)) (inl l) = inl (omega arith)
Lost-Moves a rules r s (same, inr (give_up p q n)) (inr l) = cc (rw p at l.1)

-- No row of the table is owned under the id and the attempt.
abbrev pub NoneOwned : Text → ℕ → List Row → Type 0
NoneOwned id attempt rows = All (λ r. owned id attempt r ≡ false) rows

Lost-not_owned : (id : Text) (attempt : ℕ) (r : Row) → Lost attempt r → owned id attempt r ≡ false
unfolding owned
Lost-not_owned id attempt r l = ground arith

other_id-not_owned : (id : Text) (attempt : ℕ) (r : Row) → r.id ≢ id → owned id attempt r ≡ false
unfolding owned
other_id-not_owned id attempt r h = ground (arith, text_eq_iff r.id id)

Lost-NoneOwned :
    (rows : List Row) (attempt : ℕ) {s : Row}
    → Distinct rows
    → Memᴰ s rows
    → Lost attempt s
    → NoneOwned s.id attempt rows
Lost-NoneOwned rows attempt {s} d m l = All-In rows λ x n. elim (Bool-cases (text_eq x.id s.id)) [
  | inl same ↦
      let e = Distinct-eq rows d n m ((text_eq_iff x.id s.id).0 same) in
      Lost-not_owned s.id attempt x (rw e l)
  | inr other ↦ other_id-not_owned s.id attempt x (λ e. cc ((text_eq_iff x.id s.id).1 e))
]

-- It stays so after any calls.
pub run-NoneOwned :
    (numeric : Text → Option Text) (limits : Limits) (db : Db) (calls : List Call) (r : Row)
    (attempt : ℕ)
    → Inv limits.max_active db
    → Memᴰ r db.updates
    → Lost attempt r
    → NoneOwned r.id attempt (run numeric limits db calls).updates
run-NoneOwned numeric limits db calls r attempt v m l =
    let (s, listed, (same, lost)) =
      run_row numeric limits (λ s. (s.id ≡ r.id) × Lost attempt s)
        (λ rules x y moved p. (moved.0.same_id ∙ p.0, Lost-Moves attempt rules x y moved p.1)) db
        calls v m (refl, l) in
    let d = (run-Inv numeric limits db calls v).distinct in
    rw same at (Lost-NoneOwned (run numeric limits db calls).updates attempt d listed lost)

-- An UPDATE that meets no row.
missed :
    (test : Row → Bool) (change : Row → Row) (rows : List Row)
    → All (λ r. test r ≡ false) rows
    → (filter test rows ≡ []) × (map (replace test change) rows ≡ rows)
missed test change [] h = (refl, refl)
missed test change (r ∷ rs) h = ground (arith, missed test change rs h.1)

pub update_rows-missed :
    (test : Row → Bool) (change : Row → Row) (db : Db)
    → All (λ r. test r ≡ false) db.updates
    → update_rows (λ _. test) change db ≡ (db, ok [])
unfolding update_rows
update_rows-missed test change db h =
    let (none_found, same) = missed test change db.updates h in rw (none_found, same)

-- What a statement that finds no row of the attempt answers.
abbrev pub statement_loss : Commit → StoreError
statement_loss answered = lost_ownership
statement_loss (refused f) = database f
statement_loss (unconfirmed f) = database f

-- A statement that returned no row, and the reads behind it.
missed-lost :
    (commit : Commit) (db : Db)
    → bind_result
        (finish commit db (db, ok []))
        (λ rows. lift (first_row lost_ownership rows) >>= λ row. lift (scan_update row))
      ≡ (db, err (statement_loss commit))
unfolding finish
missed-lost answered db = refl
missed-lost (refused f) db = refl
missed-lost (unconfirmed f) db = refl

pub retry-lost :
    (commit : Commit) (clock : Clock) (command : RetryCommand) (db : Db)
    → NoneOwned command.update_id command.attempt db.updates
    → retry commit clock command db ≡ (db, err (statement_loss commit))
unfolding retry
retry-lost commit clock command db h =
    rw
      (update_rows-missed (owned command.update_id command.attempt)
        (retried clock command.retry_after) db h)
      (missed-lost commit db)

pub fail-lost :
    (commit : Commit) (clock : Clock) (command : FailCommand) (db : Db)
    → NoneOwned command.update_id command.attempt db.updates
    → fail commit clock command db ≡ (db, err (statement_loss commit))
unfolding fail
fail-lost commit clock command db h =
    rw
      (update_rows-missed (owned command.update_id command.attempt) (failed_row clock command.code)
        db h)
      (missed-lost commit db)

-- What a completion that finds no row of the attempt answers: a fault or a rate that the cast
-- refuses comes first.
abbrev pub cast_loss : Option Text → StoreError
cast_loss none = constraint_violated
cast_loss (some t) = lost_ownership

abbrev pub fault_or : Option Fault → StoreError → StoreError
fault_or none e = e
fault_or (some f) e = database f

abbrev pub complete_loss : (Text → Option Text) → CompleteIo → Text → StoreError
complete_loss numeric io rate = fault_or io.begin (fault_or io.update (cast_loss (numeric rate)))

owned_pair-missed :
    (command : CompleteCommand) (rows : List Row)
    → NoneOwned command.update_id command.attempt rows
    → All (λ r. owned_pair command r ≡ false) rows
unfolding owned_pair
owned_pair-missed command rows h = All-map (λ r e. ground arith) rows h

trip-lost :
    {B : Type 0} (t : Option Fault) (k : Tx B) (e : StoreError) (db : Db)
    → k db ≡ (db, err e)
    → bind_result (trip t db) (λ _. k) ≡ (db, err (fault_or t e))
trip-lost none k e db h = h
trip-lost (some f) k e db h = refl

cast-lost :
    {B : Type 0} (o : Option Text) (k : Text → Tx B) (db : Db)
    → ((t : Text) → k t db ≡ (db, err lost_ownership))
    → bind_result (db, or_violated o) k ≡ (db, err (cast_loss o))
cast-lost none k db h = refl
cast-lost (some t) k db h = h t

module _ (numeric : Text → Option Text) (io : CompleteIo) (clock : Clock)
    (command : CompleteCommand) (db : Db)
    (h : NoneOwned command.update_id command.attempt db.updates) where
  missed_pair :
      (t : Text)
      → update_rows (λ _. owned_pair command) (completed_row clock command t) db ≡ (db, ok [])
  missed_pair t =
      update_rows-missed (owned_pair command) (completed_row clock command t) db
        (owned_pair-missed command db.updates h)

  complete_body-lost :
      complete_body numeric io clock command db
      ≡ (db, err (complete_loss numeric io command.quote.rate.decimal))
  unfolding complete_body after_update
  complete_body-lost = trip-lost io.begin _ _ db (
      trip-lost io.update _ _ db
        (cast-lost (numeric command.quote.rate.decimal) _ db λ t. rw (missed_pair t)))

  pub complete-lost :
      complete numeric io clock command db
      ≡ (db, err (complete_loss numeric io command.quote.rate.decimal))
  unfolding complete finish
  complete-lost = rw complete_body-lost

-- Once an attempt at a row of a store that has the invariant is lost, then after any further calls of any workers, a completion, a
-- retry or a failure in the name of that attempt leaves the database as it is. Its answer is the
-- loss of ownership, unless a fault or, for a completion, a rate that the cast refuses comes first.
pub stale_attempt_fenced :
    (numeric : Text → Option Text) (limits : Limits) (db : Db) (calls : List Call) (r : Row)
    (attempt : ℕ) (io : CompleteIo) (commit : Commit) (clock : Clock) (quote : Quote)
    (retry_after : ℕ) (code : FailureCode)
    → Inv limits.max_active db
    → Memᴰ r db.updates
    → Lost attempt r
    → let later = run numeric limits db calls in
      (complete numeric io clock
          (record { update_id = r.id; attempt = attempt; quote = quote })
          later
        ≡ (later, err (complete_loss numeric io quote.rate.decimal)))
      × (retry commit clock
            (record { update_id = r.id; attempt = attempt; retry_after = retry_after })
            later
          ≡ (later, err (statement_loss commit)))
      × (fail commit clock (record { update_id = r.id; attempt = attempt; code = code }) later
          ≡ (later, err (statement_loss commit)))
stale_attempt_fenced numeric limits db calls r attempt io commit clock quote retry_after code v m
      l =
    let later = run numeric limits db calls in
    let unowned = run-NoneOwned numeric limits db calls r attempt v m l in
    (
      complete-lost numeric io clock _ later unowned,
      retry-lost commit clock _ later unowned,
      fail-lost commit clock _ later unowned,
    )
