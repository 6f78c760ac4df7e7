-- ===== src/Examples/Worker.antt =====
-- Passes of a worker over the store at concrete histories.
use fx_quotes.Prelude.{ℕ, ◌≡◌, refl, false, List, [], ◌∷◌, none, some, Result, ok, err, inr}
use fx_quotes.Prelude.Int.{pos}
use fx_quotes.Entity.Update.{Quote, QuoteUpdate, pending, processing}
use fx_quotes.Usecase.Commands.{ProcessResult}
use fx_quotes.Usecase.Retry.{RetryPolicy, second, minute, delay}
use fx_quotes.Usecase.Service.{
  FetchError, ServiceError, classified, throttled, after_fetch, after_claim, process_next_update,
  handle_provider_failure, schedule_retry, retry_delay,
}
use fx_quotes.Usecase.Service.Retrying.{scheduled, IsRetry, process_next_update-IsRetry}
use fx_quotes.Postgres.Tx.{answered}
use fx_quotes.Postgres.Steps.{Call, run, empty_db}
use fx_quotes.Postgres.Worker.{Env, StoreState, worker_service}
use fx_quotes.Postgres.Worker.Pass.{IsPass, others_do, process_next_update-IsPass}
use fx_quotes.Postgres.Worker.Stale.{IsHealthy, IsStorable, lost_result, stale_worker-Lost}
use fx_quotes.Examples.Entity.{pad_numeric}
use fx_quotes.Examples.World.{
  limits, create_io, complete_io, clock_at, unlocked, pair, quote, creating, finishing, first_id,
}
use fx_quotes.Examples.Postgres.{running, waiting_db, waiting_db-Inv, waiting_row, waiting_row-In}

abbrev pub env : Env
env = record {
  create = create_io;
  read = none;
  claim = answered;
  complete = complete_io;
  write = answered;
  clock = clock_at 20;
  locked = unlocked;
  parent_done = false;
  numeric = pad_numeric;
  scan_uuid = λ t. some t;
}

env-IsHealthy : IsHealthy env
env-IsHealthy = record { writes = refl; begins = refl; updates = refl }

abbrev pub policy : RetryPolicy
policy = record { initial = pos second; maximum = pos minute }

quote-IsStorable : IsStorable env (ok quote)
unfolding pad_numeric
quote-IsStorable = (_, refl)

-- The attempt that waits to be retried, as its worker holds it.
abbrev first_attempt : QuoteUpdate
first_attempt = record {
  id = first_id;
  pair = pair;
  status = processing;
  attempt = 1;
  quote = none;
  failure_code = [];
  created_at = 10;
}

stale_worker-Lost_example :
    let s : StoreState = record { db = run pad_numeric limits waiting_db finishing; batch = 100 } in
    after_fetch (worker_service limits policy env) false first_attempt (ok quote) s
    ≡ (s, ok (lost_result first_attempt))
stale_worker-Lost_example =
    stale_worker-Lost limits policy env waiting_db finishing waiting_row first_attempt false
      (ok quote) 100 env-IsHealthy quote-IsStorable waiting_db-Inv waiting_row-In refl
      (inr (refl, refl))

abbrev created_state : StoreState
created_state = record { db = run pad_numeric limits empty_db (creating ∷ []); batch = 100 }

abbrev throttling : FetchError
throttling = classified (record { kind = throttled; code = []; retry_after = pos second })

process_next_update-IsPass_example :
    (calls : List Call) × IsPass limits env 15_000_000_000 (creating ∷ []) created_state.db calls
    × ((process_next_update
          (worker_service limits policy env)
          (others_do limits env (creating ∷ []))
          (λ p. ok quote)
          false
          15_000_000_000
          created_state).0.db
        ≡ run pad_numeric limits created_state.db calls)
process_next_update-IsPass_example =
    process_next_update-IsPass limits policy env (creating ∷ []) (λ p. ok quote) false
      15_000_000_000 created_state

abbrev wait : ℕ
wait = delay policy first_id 1 (pos second)

abbrev throttled_pass : StoreState × Result ServiceError ProcessResult
throttled_pass =
    process_next_update (worker_service limits policy env) (λ s. s) (λ p. err throttling) false
      15_000_000_000 created_state

abbrev stored : QuoteUpdate
stored = record first_attempt { status = pending }

throttled_pass_retries : throttled_pass ≡ (throttled_pass.0, ok (scheduled stored wait))
unfolding process_next_update after_claim after_fetch handle_provider_failure schedule_retry
    retry_delay delay running
throttled_pass_retries = refl

process_next_update-IsRetry_example :
    let service = worker_service limits policy env in
    let claim = service.store.claim_next 15_000_000_000 created_state in
    (update : QuoteUpdate) × (e : FetchError) × (claim.1 ≡ ok update)
    × (◌≡◌ {A = Result FetchError Quote} (err throttling) (err e))
    × IsRetry service update e claim.0 throttled_pass.0 stored wait
process_next_update-IsRetry_example =
    process_next_update-IsRetry (worker_service limits policy env) (λ s. s) (λ p. err throttling)
      false 15_000_000_000 created_state throttled_pass.0 stored wait throttled_pass_retries
