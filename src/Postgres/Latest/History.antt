-- ===== src/Postgres/Latest/History.antt =====
-- The latest quotes after any history of calls.
use fx_quotes.Prelude.{
  ℕ, ◌≡◌, refl, inl, inr, Bool, false, List, [], ◌∷◌, Option, Result, arith, Bool-cases, ltb,
}
use fx_quotes.Text.{Text, byte_length}
use fx_quotes.Entity.Pair.{Pair, parse_pair, print}
use fx_quotes.Usecase.Commands.{
  StoreError, CreateOrGetCommand, RetryCommand, FailCommand, no_work, lost_ownership,
  max_idempotency_key_bytes,
}
use fx_quotes.Postgres.Schema.{Row, Db}
use fx_quotes.Postgres.Row.{scan_update}
use fx_quotes.Postgres.Tx.{Tx, Commit, finish, bind_result, lift, update_rows}
use fx_quotes.Postgres.Queue.{Clock, claim_next, retry, fail}
use fx_quotes.Postgres.Queue.Recovery.{recover_rows, recover_expired_batch, scan_all}
use fx_quotes.Postgres.Store.{
  CreateIo, create_or_get, create_body, admit, admit_existing, admit_new, insert_row, existing,
  or_invalid_pair,
}
use fx_quotes.Postgres.Steps.{
  Call, creates, claims, completes, retries, fails, recovers, Limits, step, run,
}
use fx_quotes.Postgres.Effect.Calls.{bind_result-kept, first-kept, bind_result-after, trip-after}
use fx_quotes.Postgres.Effect.Step.{rules_of, step-Effect}
use fx_quotes.Postgres.Invariant.{Inv, step-Inv}
use fx_quotes.Postgres.Latest.{IsLatest}
use fx_quotes.Postgres.Latest.Completion.{complete-Committed, finish-outcome}
use fx_quotes.Postgres.Latest.Steps.{IsLatest-same, Effect-completed, Committed-IsLatest}

update_rows-latest :
    (where_ : List Row → Row → Bool) (change : Row → Row) (db : Db)
    → (update_rows where_ change db).0.latest ≡ db.latest
unfolding update_rows
update_rows-latest where_ change db = ground arith

finish-latest :
    {A : Type 0} (commit : Commit) (db : Db) (r : Db × Result StoreError A)
    → r.0.latest ≡ db.latest
    → (finish commit db r).0.latest ≡ db.latest
finish-latest commit db r h = elim (finish-outcome commit db r) [
  | inl e ↦ rw e
  | inr (e, _) ↦ rw e h
]

-- A statement on its own, and what reads after it.
statement-latest :
    {A : Type 0} (commit : Commit) (where_ : List Row → Row → Bool) (change : Row → Row) (db : Db)
    (f : List Row → Tx A)
    → ((rows : List Row) (out : Db) → (f rows out).0 ≡ out)
    → (bind_result (finish commit db (update_rows where_ change db)) f).0.latest ≡ db.latest
statement-latest commit where_ change db f h =
    rw (bind_result-kept (finish commit db (update_rows where_ change db)) f h)
      (finish-latest commit db _ (update_rows-latest where_ change db))

admit-latest :
    (io : CreateIo) (pair key : Text) (max_active : ℕ) (db : Db)
    → (admit io pair key max_active db).0.latest ≡ db.latest
unfolding admit admit_existing admit_new insert_row
admit-latest io pair key max_active db = existing_cases (existing key db.updates)
  where
    existing_cases :
        (rows : List Row) → (admit_existing io pair key max_active rows db).0.latest ≡ db.latest
    existing_cases [] = ground arith
    existing_cases (r ∷ rs) = refl

create_body-latest :
    (max_active : ℕ) (io : CreateIo) (pair : Pair) (key : Text) (db : Db)
    → (create_body max_active io pair key db).0.latest ≡ db.latest
unfolding create_body
create_body-latest max_active io pair key db =
    let P : Db → Type 0 = λ x. x.latest ≡ db.latest in
    let same = admit-latest io (print pair) key max_active db in
    trip-after P io.begin _ db refl (
      trip-after P io.lock _ db refl (
        trip-after P io.random _ db refl (
          trip-after P io.query _ db refl (
            bind_result-after P (admit io (print pair) key max_active db) _ same λ found admitted.
              bind_result-after P ((admit io (print pair) key max_active db).0, scan_update found.0)
                _ same λ update scanned. same))))

create_or_get-latest :
    (max_active : ℕ) (io : CreateIo) (command : CreateOrGetCommand) (db : Db)
    → (create_or_get max_active io command db).0.latest ≡ db.latest
unfolding create_or_get
create_or_get-latest max_active io command db =
    let P : Db → Type 0 = λ x. x.latest ≡ db.latest in
    elim (Bool-cases (ltb max_idempotency_key_bytes (byte_length command.idempotency_key))) [
      | inl long ↦ rw long
      | inr fits ↦ rw fits (
          bind_result-after P (db, or_invalid_pair (parse_pair (print command.pair))) _ refl
            λ pair parsed. trip-after P io.gate _ db refl (
              finish-latest io.commit db _
                (create_body-latest max_active io pair command.idempotency_key db)))
    ]

retry-latest :
    (commit : Commit) (clock : Clock) (command : RetryCommand) (db : Db)
    → (retry commit clock command db).0.latest ≡ db.latest
unfolding retry
retry-latest commit clock command db =
    statement-latest commit _ _ db _ (first-kept lost_ownership scan_update)

fail-latest :
    (commit : Commit) (clock : Clock) (command : FailCommand) (db : Db)
    → (fail commit clock command db).0.latest ≡ db.latest
unfolding fail
fail-latest commit clock command db =
    statement-latest commit _ _ db _ (first-kept lost_ownership scan_update)

claim_next-latest :
    (commit : Commit) (locked : Row → Bool) (clock : Clock) (lease : ℕ) (db : Db)
    → (claim_next commit locked clock lease db).0.latest ≡ db.latest
unfolding claim_next
claim_next-latest commit locked clock lease db =
    statement-latest commit _ _ db _ (first-kept no_work scan_update)

recover-latest :
    (commit : Commit) (locked : Row → Bool) (clock : Clock) (max_attempts batch : ℕ) (db : Db)
    → (recover_expired_batch commit locked clock max_attempts batch db).0.latest ≡ db.latest
unfolding recover_expired_batch recover_rows
recover-latest commit locked clock max_attempts batch db =
    statement-latest commit _ _ db (λ rows. lift (scan_all rows)) (λ rows out. refl)

module _ (numeric : Text → Option Text) (limits : Limits) where
  kept-IsLatest :
      (db : Db) (call : Call)
      → Inv limits.max_active db
      → (rules_of limits call).may_succeed ≡ false
      → (step numeric limits db call).latest ≡ db.latest
      → IsLatest db.updates db.latest
      → IsLatest (step numeric limits db call).updates (step numeric limits db call).latest
  kept-IsLatest db call v barred same w =
      let (there, back) = Effect-completed barred (step-Effect numeric limits db call v.distinct) in
      rw same (IsLatest-same there back w)

  step-IsLatest :
      (db : Db) (call : Call)
      → Inv limits.max_active db
      → IsLatest db.updates db.latest
      → IsLatest (step numeric limits db call).updates (step numeric limits db call).latest
  step-IsLatest db (completes io clock command) v w =
      unfold step in
      elim (complete-Committed clock command db numeric io v.distinct) [
        | inl (rows, same) ↦ rw (rows, same) w
        | inr u ↦ Committed-IsLatest clock command v.distinct u w
      ]
  step-IsLatest db (creates io command) v w =
      kept-IsLatest db (creates io command) v refl
        (unfold step in create_or_get-latest limits.max_active io command db) w
  step-IsLatest db (claims commit locked clock lease) v w =
      kept-IsLatest db (claims commit locked clock lease) v refl
        (unfold step in claim_next-latest commit locked clock lease db) w
  step-IsLatest db (retries commit clock command) v w =
      kept-IsLatest db (retries commit clock command) v refl
        (unfold step in retry-latest commit clock command db) w
  step-IsLatest db (fails commit clock command) v w =
      kept-IsLatest db (fails commit clock command) v refl
        (unfold step in fail-latest commit clock command db) w
  step-IsLatest db (recovers commit locked clock batch) v w =
      kept-IsLatest db (recovers commit locked clock batch) v refl
        (unfold step in recover-latest commit locked clock limits.max_attempts batch db) w

  -- Whatever calls are made of a store that has the invariant and whose two tables agree, in any order and with any faults,
  -- they agree after them: each latest quote stands for a completed row, and each completed row has
  -- a latest quote of its pair that is not older by source date and then by number.
  pub run-IsLatest :
      (db : Db) (calls : List Call)
      → Inv limits.max_active db
      → IsLatest db.updates db.latest
      → let later = run numeric limits db calls in IsLatest later.updates later.latest
  unfolding run
  run-IsLatest db [] v w = w
  run-IsLatest db (c ∷ cs) v w =
      run-IsLatest (step numeric limits db c) cs (step-Inv numeric limits db c v)
        (step-IsLatest db c v w)
