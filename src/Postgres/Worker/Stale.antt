-- ===== src/Postgres/Worker/Stale.antt =====
-- A worker whose lease is gone when the provider answers.
use fx_quotes.Prelude.{
  ℕ, ◌≡◌, refl, subst, inl, inr, Bool, true, false, ◌&&◌, List, none, some, Result, ok, err, Memᴰ,
  Bool-cases, ltb,
}
use fx_quotes.Text.{Text}
use fx_quotes.Entity.Update.{Quote, QuoteUpdate}
use fx_quotes.Usecase.Commands.{process_lost, ProcessResult}
use fx_quotes.Usecase.Retry.{RetryPolicy}
use fx_quotes.Usecase.Service.{
  FetchError, is_retryable, provider_failure, complete_update, schedule_retry, fail_update,
  handle_provider_failure, after_fetch,
}
use fx_quotes.Postgres.Schema.{Row, Db}
use fx_quotes.Postgres.Tx.{answered}
use fx_quotes.Postgres.Steps.{Call, Limits, run}
use fx_quotes.Postgres.Invariant.{Inv}
use fx_quotes.Postgres.Fencing.{
  Lost, NoneOwned, run-NoneOwned, retry-lost, fail-lost, complete-lost,
}
use fx_quotes.Postgres.Worker.{Env, StoreState, worker_service}

-- The calls of the driver answer.
pub record IsHealthy (env : Env) : Type 0 where
  pub writes : env.write ≡ answered
  pub begins : env.complete.begin ≡ none
  pub updates : env.complete.update ≡ none

-- The rate of the quote that is answered, if there is one, can be stored.
abbrev pub IsStorable : Env → Result FetchError Quote → Type 0
IsStorable env (ok quote) = (t : Text) × (env.numeric quote.rate.decimal ≡ some t)
IsStorable env (err e) = Unit

abbrev pub lost_result : QuoteUpdate → ProcessResult
lost_result update = record { update = update; outcome = process_lost; retry_after = 0 }

module _ (limits : Limits) (policy : RetryPolicy) (env : Env) (update : QuoteUpdate)
    (s : StoreState) (healthy : IsHealthy env)
    (unowned : NoneOwned update.id update.attempt s.db.updates) where
  complete_update-lost :
      (quote : Quote)
      → IsStorable env (ok quote)
      → complete_update (worker_service limits policy env) update quote s
        ≡ (s, ok (lost_result update))
  unfolding complete_update
  complete_update-lost quote storable = rw (
    complete-lost env.numeric env.complete env.clock
        (record { update_id = update.id; attempt = update.attempt; quote = quote }) s.db unowned,
    healthy.begins,
    healthy.updates,
    storable.1,
  )

  schedule_retry-lost :
      (e : FetchError)
      → schedule_retry (worker_service limits policy env) update (provider_failure e) s
        ≡ (s, ok (lost_result update))
  unfolding schedule_retry
  schedule_retry-lost e = rw (
    retry-lost env.write env.clock
        (record { update_id = update.id; attempt = update.attempt; retry_after = _ }) s.db unowned,
    healthy.writes,
  )

  fail_update-lost :
      (e : FetchError)
      → fail_update (worker_service limits policy env) update (provider_failure e) s
        ≡ (s, ok (lost_result update))
  unfolding fail_update
  fail_update-lost e = rw (
    fail-lost env.write env.clock
        (record { update_id = update.id; attempt = update.attempt; code = _ }) s.db unowned,
    healthy.writes,
  )

  after_fetch-lost :
      (done : Bool) (answer : Result FetchError Quote)
      → IsStorable env answer
      → after_fetch (worker_service limits policy env) done update answer s
        ≡ (s, ok (lost_result update))
  unfolding after_fetch handle_provider_failure
  after_fetch-lost true answer storable = refl
  after_fetch-lost false (ok quote) storable = complete_update-lost quote storable
  after_fetch-lost false (err e) storable =
      elim (Bool-cases
        (is_retryable (provider_failure e) && ltb update.attempt limits.max_attempts)) [
          | inl again ↦ rw again (schedule_retry-lost e)
          | inr last ↦ rw last (fail_update-lost e)
        ]

-- A worker whose claimed attempt is lost in a store that has the invariant, after any calls of
-- others, reports the loss whatever the provider has answered, and leaves the store as it is, if the
-- driver's calls answer and the rate of the quote, where the provider has answered with one, can be
-- stored.
pub stale_worker-Lost :
    (limits : Limits) (policy : RetryPolicy) (env : Env) (db : Db) (calls : List Call) (r : Row)
    (update : QuoteUpdate) (done : Bool) (answer : Result FetchError Quote) (batch : ℕ)
    → IsHealthy env
    → IsStorable env answer
    → Inv limits.max_active db
    → Memᴰ r db.updates
    → r.id ≡ update.id
    → Lost update.attempt r
    → let s : StoreState = record { db = run env.numeric limits db calls; batch = batch } in
      after_fetch (worker_service limits policy env) done update answer s
      ≡ (s, ok (lost_result update))
stale_worker-Lost limits policy env db calls r update done answer batch healthy storable v m same
      lost =
    after_fetch-lost limits policy env update _ healthy
      (subst (λ id. NoneOwned id update.attempt (run env.numeric limits db calls).updates) same
        (run-NoneOwned env.numeric limits db calls r update.attempt v m lost))
      done answer storable
