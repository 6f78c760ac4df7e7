-- ===== src/Examples/Pool.antt =====
-- A pool of two workers that is stopped while one of them waits.
use fx_quotes.Prelude.{
  some, none, ◌+◌, ◌*◌, ◌≤◌, ◌≡◌, refl, ◌⊎◌, Bool, true, false, List, [], ◌∷◌, ok, err, arith, min,
  max, length, All,
}
use fx_quotes.Usecase.Commands.{no_work}
use fx_quotes.Usecase.Retry.{second, minute}
use fx_quotes.Usecase.Service.{store_error}
use fx_quotes.Pool.{
  Pool, after_recover, notify, notify_times, after_process, Worker, heading, processing, returned,
  idling, starting, checking, pausing, done, System, ask, answer, idle_stopped, here, Step, work,
  entered_early, started, launched, recovery_stopped, cancels,
}
use fx_quotes.Pool.Delays.{after_recover_bounds}
use fx_quotes.Pool.Drain.{Course, stays, steps, meets, called}
use fx_quotes.Pool.Stop.{course_bounds, drain_terminates, drain_moves}
use fx_quotes.Pool.GoError.{GoError, plain, wraps, links, any_link, first_state, root, reword}
use fx_quotes.Pool.Log.{
  error_fields, failure_fields, error_kind, state_field, valid_state, all_state_codes,
}
use fx_quotes.Pool.Log.Fields.{IsLogged, error_fields-IsLogged}
use fx_quotes.Text.{codes, byte_length}
use fx_quotes.Examples.Postgres.{waiting_update}

abbrev pool : Pool
pool = record {
  concurrency = 2;
  lease_duration = 15 * second;
  poll_interval = second;
  recovery_interval = minute;
  error_delay = second;
}

after_recover_bounds_example :
    let (delay, tokens) = after_recover pool false (ok (waiting_update ∷ [])) 1 in
    (min pool.poll_interval pool.recovery_interval ≤ delay)
    × (delay ≤ max pool.recovery_interval pool.error_delay)
    × (1 ≤ tokens)
    × (tokens ≤ pool.concurrency)
after_recover_bounds_example =
    after_recover_bounds pool false (ok (waiting_update ∷ [])) 1 (omega arith)

abbrev at : Bool → List Worker → System
at cancelled ws = record {
  cancelled = cancelled;
  tokens = 0;
  recovery = pausing minute;
  workers = ws;
}

-- The first worker has asked and found no work when the context ends.
abbrev paused : System
paused = at true (idling second ∷ heading ∷ [])

first_pass :
    Step pool
      (record { cancelled = false; tokens = 0; recovery = starting; workers = [] })
      (record { cancelled = false; tokens = 0; recovery = checking minute; workers = [] })
unfolding after_recover notify_times notify
first_pass = started false 0 (ok [])

first_answer :
    Step pool (at false (processing ∷ heading ∷ [])) (at false (idling second ∷ heading ∷ []))
unfolding after_process
first_answer =
    work false 0 0 (pausing minute) _ _
      (here 0 0 processing _ (heading ∷ []) (answer 0 (err (store_error no_work))))

reached : Course pool 5 (called false 0) paused
reached = steps 4 _ _ _ (entered_early 0) (
    steps 3 _ _ _ first_pass (
      steps 2 _ _ _ (launched 0 minute) (
        steps 1 _ (at false (processing ∷ heading ∷ [])) _
          (work false 0 0 (pausing minute) _ _
            (here 0 0 heading processing (heading ∷ []) (ask 0 refl)))
          (steps 0 _ _ _ first_answer
            (meets 0 _ paused _ (cancels false 0 (pausing minute) _) (stays paused))))))

-- That worker and the recovery stop.
stopped :
    Course pool 2 paused
      (record { cancelled = true; tokens = 0; recovery = done; workers = returned ∷ heading ∷ [] })
stopped =
    steps 1 _ (at true (returned ∷ heading ∷ [])) _
      (work true 0 0 (pausing minute) _ _
        (here 0 0 (idling second) returned (heading ∷ []) (idle_stopped 0 second refl)))
      (steps 0 _ _ _ (recovery_stopped 0 minute _) (stays _))

course_bounds_example :
    (paused.tokens ≤ pool.concurrency) × (length paused.workers ≤ pool.concurrency)
course_bounds_example = course_bounds pool 5 0 false paused (omega arith) reached

drain_terminates_example : 2 ≤ 2 * pool.concurrency + 2
drain_terminates_example =
    drain_terminates pool 5 2 0 false paused
      (record { cancelled = true; tokens = 0; recovery = done; workers = returned ∷ heading ∷ [] })
      (omega arith) reached refl stopped

drain_moves_example :
    ((paused.recovery ≡ done) × All (λ w. w ≡ returned) paused.workers)
    ⊎ ((s' : System) × Step pool paused s')
drain_moves_example = drain_moves pool 5 0 false paused (omega arith) reached refl

abbrev refusal : GoError
refusal = plain (record {
  text = codes "password authentication failed for user quotes";
  type_name = codes "*pgconn.PgError";
  is_deadline = false;
  is_canceled = false;
  sql_state = some (codes "28P01");
})

abbrev refused_connection : GoError
refused_connection =
    wraps
      (record {
        text = codes "claim: password authentication failed for user quotes";
        type_name = codes "*fmt.wrapError";
        is_deadline = false;
        is_canceled = false;
        sql_state = none;
      })
      refusal

refused_fields :
    error_fields refused_connection
    ≡ (codes "outcome", codes "error")
      ∷ (codes "error_kind", codes "internal")
      ∷ (codes "error_type", codes "*pgconn.PgError")
      ∷ (codes "sqlstate", codes "28P01")
      ∷ []
unfolding error_fields error_kind state_field valid_state all_state_codes links any_link first_state
    root byte_length
refused_fields = refl

error_fields-IsLogged_example :
    IsLogged refused_connection
      (error_fields refused_connection)
      (failure_fields refused_connection)
    × (error_fields (reword (λ t. []) refused_connection) ≡ error_fields refused_connection)
    × (failure_fields (reword (λ t. []) refused_connection) ≡ failure_fields refused_connection)
error_fields-IsLogged_example = error_fields-IsLogged refused_connection (λ t. [])
