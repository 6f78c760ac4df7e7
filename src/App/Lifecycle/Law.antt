-- ===== src/App/Lifecycle/Law.antt =====
-- The order in which the parts of the service may be stopped.
use fx_quotes.Prelude.{
  ℕ, zero, suc, ◌<◌, ◌≡◌, refl, Bool, true, false, not, ◌&&◌, List, [], ◌∷◌, ◌++◌, Option, none,
  some, Result, ok, err, arith,
}
use fx_quotes.App.Config.{Library, Lookup, Config, ConfigError, load_from_lookup}
use fx_quotes.App.Build.{Application, Outcomes, BuildError, PoolEvent, build, build_with, assemble}
use fx_quotes.App.Lifecycle.{
  Event, opened, closed, ready_on, ready_off, workers_started, listener_started, http_shutdown,
  http_timed_out, http_closed, workers_stopped, workers_done, Ending, listener_returned,
  context_ended, RunError, ending_error, serve, run_application, run_built, run_loaded, run,
  exit_code,
}

-- The parts that are up: the pool of connections, the readiness, the workers, whose context may
-- have ended, and the listener.
pub record Parts : Type 0 where
  pub pool : Bool
  pub ready : Bool
  pub workers : Bool
  pub working : Bool
  pub serving : Bool

abbrev pub nothing : Parts
nothing = record { pool = false; ready = false; workers = false; working = false; serving = false }

abbrev allow : Bool → Parts → Option Parts
allow true parts = some parts
allow false parts = none

-- What an event does, where its order is respected: the service gets ready with an open pool only;
-- the server shuts down with the readiness taken back and the workers still at work; the workers
-- stop behind the server; the pool closes behind both.
unfoldable pub follow_one : Event → Parts → Option Parts
follow_one opened p = allow (not p.pool) (record p { pool = true })
follow_one closed p = allow (p.pool && not p.workers && not p.serving) (record p { pool = false })
follow_one ready_on p = allow p.pool (record p { ready = true })
follow_one ready_off p = some (record p { ready = false })
follow_one workers_started p =
    allow (p.pool && not p.workers) (record p { workers = true; working = true })
follow_one listener_started p = allow (p.pool && not p.serving) (record p { serving = true })
follow_one http_shutdown p = allow (not p.ready && p.working) (record p { serving = false })
follow_one http_timed_out p = allow (not p.ready && p.working) p
follow_one http_closed p = allow p.working (record p { serving = false })
follow_one workers_stopped p = allow (not p.serving) (record p { working = false })
follow_one workers_done p = allow (not p.working) (record p { workers = false })

abbrev then_follow : (Parts → Option Parts) → Option Parts → Option Parts
then_follow f none = none
then_follow f (some parts) = f parts

unfoldable pub follow : List Event → Parts → Option Parts
unfolding follow_one
follow [] parts = some parts
follow (event ∷ events) parts = then_follow (follow events) (follow_one event parts)

run_application-follow :
    (application : Application) (ending : Ending)
    → follow (opened ∷ (run_application application ending).1) nothing ≡ some nothing
unfolding run_application follow follow_one serve
run_application-follow application ending = served application.config.shutdown_timeout ending
  where
    served :
        (timeout : ℕ) (ending : Ending)
        → follow (opened ∷ ready_on ∷ (serve timeout ending).1 ++ closed ∷ ready_off ∷ []) nothing
          ≡ some nothing
    served zero ending = refl
    served (suc n) (listener_returned failed) = refl
    served (suc n) (context_ended true) = refl
    served (suc n) (context_ended false) = refl

module _ (library : Library) (lookup : Lookup) (outcomes : Outcomes) (ending : Ending) where
  built-follow :
      (logger parsed reached : Bool) (r : Result BuildError Application)
      → follow (run_built ending (build_with logger parsed reached r)).1 nothing ≡ some nothing
  unfolding build_with follow follow_one
  built-follow false parsed reached r = refl
  built-follow true false reached r = refl
  built-follow true true false r = refl
  built-follow true true true (err e) = refl
  built-follow true true true (ok application) = run_application-follow application ending

  -- However the process ends, from the reading of its environment to its exit code, it stops
  -- its parts in order: it gets ready with an open pool of connections only; it asks the server
  -- to shut down behind the readiness; it stops the workers behind the server; it closes the
  -- pool of connections behind both; and nothing is left open or running.
  pub run-follow : follow (run library lookup outcomes ending).1 nothing ≡ some nothing
  unfolding run build follow
  run-follow =
      elim (load_from_lookup library (some lookup))
        as (λ r. follow (run_loaded library outcomes ending r).1 nothing ≡ some nothing) [
          | err e ↦ refl
          | ok config ↦
              built-follow outcomes.logger outcomes.parsed outcomes.opened
                (assemble library outcomes.migrated config)
        ]

  exit_code-none : (e : Option RunError) → exit_code e ≡ 0 → e ≡ none
  exit_code-none none h = refl
  exit_code-none (some e) h = ground (arith, h)

  served-code :
      (timeout : ℕ)
      → exit_code (serve timeout ending).0 ≡ 0
      → (0 < timeout) × (ending_error ending ≡ none)
  unfolding serve
  served-code zero h = ground (arith, h)
  served-code (suc n) h = (omega arith, exit_code-none (ending_error ending) h)

  built-code :
      (r : Result BuildError Application) (events : List PoolEvent)
      → (run_built ending (r, events)).0 ≡ 0
      → (application : Application) × (r ≡ ok application)
        × (0 < application.config.shutdown_timeout)
        × (ending_error ending ≡ none)
  unfolding run_application
  built-code (err e) events h = ground (arith, h)
  built-code (ok application) events h =
      let (positive, well) = served-code application.config.shutdown_timeout h in
      (application, refl, positive, well)

  loaded-code :
      (r : Result ConfigError Config)
      → (run_loaded library outcomes ending r).0 ≡ 0
      → (config : Config) × (application : Application) × (r ≡ ok config)
        × ((build library outcomes config).0 ≡ ok application)
        × (ending_error ending ≡ none)
  loaded-code (err e) h = ground (arith, h)
  loaded-code (ok config) h =
      let (r, events) = build library outcomes config in
      let (application, built, positive, well) = built-code r events h in
      (config, application, refl, built, well)

  -- The process exits with code 0 only if its configuration loads, its parts are built, and its
  -- server ends without an error.
  pub run-code :
      (run library lookup outcomes ending).0 ≡ 0
      → (config : Config) × (application : Application) × (load_from_lookup library (some lookup)
          ≡ ok config)
        × ((build library outcomes config).0 ≡ ok application)
        × (ending_error ending ≡ none)
  unfolding run
  run-code h = loaded-code (load_from_lookup library (some lookup)) h
