-- ===== src/Postgres/Worker/Pass.antt =====
-- A worker's pass over the PostgreSQL store as calls of the store.
use fx_quotes.Prelude.{
  ℕ, ◌<◌, ◌≡◌, refl, sym, ap, inl, inr, Bool, true, false, ◌&&◌, List, [], ◌∷◌, ◌++◌, Option,
  Result, ok, err, arith, Bool-cases, ltb,
}
use fx_quotes.Text.{Text}
use fx_quotes.Entity.Pair.{Pair}
use fx_quotes.Entity.Update.{Quote, QuoteUpdate, FailureCode}
use fx_quotes.Usecase.Commands.{StoreError, lost_ownership, ProcessOutcome}
use fx_quotes.Usecase.Retry.{RetryPolicy}
use fx_quotes.Usecase.Service.{
  FetchError, settle, is_retryable, provider_failure, complete_update, schedule_retry, fail_update,
  handle_provider_failure, after_fetch, after_claim, process_next_update, retry_delay,
  failure_code_of,
}
use fx_quotes.Postgres.Schema.{Db}
use fx_quotes.Postgres.Tx.{Commit}
use fx_quotes.Postgres.Queue.{Clock, claim_next}
use fx_quotes.Postgres.Queue.Completion.{CompleteIo}
use fx_quotes.Postgres.Steps.{Call, claims, completes, retries, fails, Limits, step, run}
use fx_quotes.Postgres.Worker.{Env, StoreState, worker_service}

-- A call that writes the result of an attempt; a retry only before the last attempt.
pub data IsWrite (limits : Limits) (update : QuoteUpdate) : Call → Type 0 where
  to_complete :
      (io : CompleteIo) (clock : Clock) (quote : Quote)
      → IsWrite limits update (
          completes io clock
            (record { update_id = update.id; attempt = update.attempt; quote = quote }))
  to_retry :
      (commit : Commit) (clock : Clock) (after : ℕ)
      → update.attempt < limits.max_attempts
      → IsWrite limits update (
          retries commit clock
            (record { update_id = update.id; attempt = update.attempt; retry_after = after }))
  to_fail :
      (commit : Commit) (clock : Clock) (code : FailureCode)
      → IsWrite limits update (
          fails commit clock
            (record { update_id = update.id; attempt = update.attempt; code = code }))

abbrev pub claim_call : Env → ℕ → Call
claim_call env lease = claims env.claim env.locked env.clock lease

-- The calls of a pass: a claim, and if it has given an update, what others do while the provider
-- answers, and at most one write in the name of the claimed attempt.
pub data IsPass (limits : Limits) (env : Env) (lease : ℕ) (others : List Call) (db : Db)
    : List Call → Type 0 where
  unclaimed : IsPass limits env lease others db (claim_call env lease ∷ [])
  dropped : IsPass limits env lease others db (claim_call env lease ∷ others)
  wrote :
      (update : QuoteUpdate) (write : Call)
      → (claim_next env.claim env.locked env.clock lease db).1 ≡ ok update
      → IsWrite limits update write
      → IsPass limits env lease others db (claim_call env lease ∷ others ++ write ∷ [])

-- The calls of others on the state of the store.
abbrev pub others_do : Limits → Env → List Call → StoreState → StoreState
others_do limits env others s = record s { db = run env.numeric limits s.db others }

run-append :
    (numeric : Text → Option Text) (limits : Limits) (db : Db) (xs ys : List Call)
    → run numeric limits db (xs ++ ys) ≡ run numeric limits (run numeric limits db xs) ys
unfolding run
run-append numeric limits db [] ys = refl
run-append numeric limits db (x ∷ xs) ys =
    run-append numeric limits (step numeric limits db x) xs ys

settle-state :
    {S : Type 0} (update : QuoteUpdate) (outcome : ProcessOutcome) (after : ℕ)
    (out : S × Result StoreError QuoteUpdate)
    → (settle update outcome after out).0 ≡ out.0
settle-state update outcome after (s, ok stored) = refl
settle-state update outcome after (s, err lost_ownership) = refl
settle-state update outcome after (s, err _) = refl

module _ (limits : Limits) (policy : RetryPolicy) (env : Env) where
  -- The state behind one write.
  Wrote : QuoteUpdate → StoreState → StoreState → Type 0
  Wrote update s after =
      (write : Call) × IsWrite limits update write × (after.db ≡ step env.numeric limits s.db write)

  fail_update-Wrote :
      (update : QuoteUpdate) (e : FetchError) (s : StoreState)
      → Wrote update s
          (fail_update (worker_service limits policy env) update (provider_failure e) s).0
  unfolding Wrote fail_update step
  fail_update-Wrote update e s = (
    fails env.write env.clock _,
    to_fail env.write env.clock (failure_code_of (provider_failure e)),
    ap (λ (x : StoreState). x.db) (settle-state update _ 0 _),
  )

  schedule_retry-Wrote :
      (update : QuoteUpdate) (e : FetchError) (s : StoreState)
      → update.attempt < limits.max_attempts
      → Wrote update s
          (schedule_retry (worker_service limits policy env) update (provider_failure e) s).0
  unfolding Wrote schedule_retry step
  schedule_retry-Wrote update e s less = (
    retries env.write env.clock _,
    to_retry env.write env.clock
        (retry_delay (worker_service limits policy env) update (provider_failure e)) less,
    ap (λ (x : StoreState). x.db) (settle-state update _ _ _),
  )

  handle-Wrote :
      (update : QuoteUpdate) (e : FetchError) (s : StoreState)
      → Wrote update s (handle_provider_failure (worker_service limits policy env) update e s).0
  unfolding handle_provider_failure
  handle-Wrote update e s =
      elim (Bool-cases
        (is_retryable (provider_failure e) && ltb update.attempt limits.max_attempts)) [
          | inl again ↦ rw again (schedule_retry-Wrote update e s (ground arith))
          | inr last ↦ rw last (fail_update-Wrote update e s)
        ]

  complete-Wrote :
      (update : QuoteUpdate) (quote : Quote) (s : StoreState)
      → Wrote update s (complete_update (worker_service limits policy env) update quote s).0
  unfolding Wrote complete_update step
  complete-Wrote update quote s = (
    completes env.complete env.clock _,
    to_complete env.complete env.clock quote,
    ap (λ (x : StoreState). x.db) (settle-state update _ 0 _),
  )

  Wrote-IsPass :
      (lease : ℕ) (others : List Call) (db : Db) (update : QuoteUpdate) (s after : StoreState)
      → (claim_next env.claim env.locked env.clock lease db).1 ≡ ok update
      → s.db ≡ run env.numeric limits db (claim_call env lease ∷ others)
      → Wrote update s after
      → (calls : List Call) × IsPass limits env lease others db calls
        × (after.db ≡ run env.numeric limits db calls)
  unfolding Wrote
  Wrote-IsPass lease others db update s after claimed same (write, named, e) = (
    claim_call env lease ∷ others ++ write ∷ [],
    wrote update write claimed named,
    rw e (
        unfold run in
        rw
          (run-append env.numeric limits (step env.numeric limits db (claim_call env lease)) others
            (write ∷ []))
          (ap (λ d. step env.numeric limits d write) same)),
  )

  after_fetch-IsPass :
      (others : List Call) (done : Bool) (lease : ℕ) (db : Db) (update : QuoteUpdate)
      (answer : Result FetchError Quote) (s : StoreState)
      → (claim_next env.claim env.locked env.clock lease db).1 ≡ ok update
      → s.db ≡ run env.numeric limits db (claim_call env lease ∷ others)
      → (calls : List Call) × IsPass limits env lease others db calls
        × ((after_fetch (worker_service limits policy env) done update answer s).0.db
            ≡ run env.numeric limits db calls)
  unfolding after_fetch
  after_fetch-IsPass others true lease db update answer s claimed same =
      (claim_call env lease ∷ others, dropped, same)
  after_fetch-IsPass others false lease db update (ok quote) s claimed same =
      Wrote-IsPass lease others db update s _ claimed same (complete-Wrote update quote s)
  after_fetch-IsPass others false lease db update (err e) s claimed same =
      Wrote-IsPass lease others db update s _ claimed same (handle-Wrote update e s)

  after_claim-IsPass :
      (others : List Call) (fetch : Pair → Result FetchError Quote) (done : Bool) (lease : ℕ)
      (db : Db) (out : StoreState × Result StoreError QuoteUpdate)
      → out.0.db ≡ step env.numeric limits db (claim_call env lease)
      → out.1 ≡ (claim_next env.claim env.locked env.clock lease db).1
      → (calls : List Call) × IsPass limits env lease others db calls
        × ((after_claim
              (worker_service limits policy env)
              (others_do limits env others)
              fetch
              done
              out).0.db
            ≡ run env.numeric limits db calls)
  unfolding after_claim run
  after_claim-IsPass others fetch done lease db (s, err e) same answer =
      (claim_call env lease ∷ [], unclaimed, same)
  after_claim-IsPass others fetch done lease db (s, ok update) same answer =
      after_fetch-IsPass others done lease db update (fetch update.pair)
        (others_do limits env others s) (sym answer)
        (ap (λ d. run env.numeric limits d others) same)

  -- A pass of a worker over the PostgreSQL store, with any calls of others while the provider
  -- answers, is a run of the store: the claim, and if it has given an update, the calls of the
  -- others and at most one write, which names the claimed update and attempt and is a retry only
  -- before the last attempt.
  pub process_next_update-IsPass :
      (others : List Call) (fetch : Pair → Result FetchError Quote) (done : Bool) (lease : ℕ)
      (s : StoreState)
      → (calls : List Call) × IsPass limits env lease others s.db calls
        × ((process_next_update
              (worker_service limits policy env)
              (others_do limits env others)
              fetch
              done
              lease
              s).0.db
            ≡ run env.numeric limits s.db calls)
  unfolding process_next_update step
  process_next_update-IsPass others fetch done lease s =
      after_claim-IsPass others fetch done lease s.db _ refl refl
