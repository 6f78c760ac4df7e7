-- ===== src/App/Lifecycle.antt =====
-- internal/app/lifecycle.go (`serve`), `Run` of internal/app/app.go, internal/app/readiness.go, and
-- `run` of cmd/fx-quotes/main.go, as the sequence of what they do to the parts of the service.
-- What the parts answer is an argument.
pub mod Law
use fx_quotes.Prelude.{
  ℕ, zero, suc, Bool, true, false, not, ◌&&◌, ◌||◌, List, [], ◌∷◌, ◌++◌, Option, none, some, Result,
  ok, err, if◌then◌else◌,
}
use fx_quotes.App.Config.{Library, Lookup, Config, ConfigError, load_from_lookup}
use fx_quotes.App.Build.{
  Application, BuildError, Outcomes, PoolEvent, pool_opened, pool_closed, build,
}

-- What is done to the parts of the service. `workers_done` and `pool_closed` are the returns of
-- the calls that wait; `http_timed_out` is a `Shutdown` that has returned an error and left
-- connections open.
pub data Event : Type 0 where
  opened closed ready_on ready_off workers_started listener_started http_shutdown http_timed_out
        http_closed workers_stopped workers_done :
      Event

-- How `serve` comes to its end: the listener returns, with an error other than
-- `http.ErrServerClosed` or without; or the context ends, and `Shutdown` of the server succeeds or
-- not.
pub data Ending : Type 0 where
  listener_returned : Bool → Ending
  context_ended : Bool → Ending

pub data RunError : Type 0 where
  bad_arguments listener_error shutdown_error : RunError

-- The last case of the `select` of `serve`.
abbrev shut_down : Bool → List Event
shut_down true = http_shutdown ∷ []
shut_down false = http_timed_out ∷ http_closed ∷ []

abbrev pub ending_events : Ending → List Event
ending_events (listener_returned failed) = http_closed ∷ workers_stopped ∷ workers_done ∷ []
ending_events (context_ended shutdown) =
    ready_off ∷ shut_down shutdown ++ workers_stopped ∷ workers_done ∷ []

abbrev pub ending_error : Ending → Option RunError
ending_error (listener_returned false) = none
ending_error (listener_returned true) = some listener_error
ending_error (context_ended true) = none
ending_error (context_ended false) = some shutdown_error

-- `serve` with a server and workers; `stopping` takes the readiness back.
unfoldable pub serve : ℕ → Ending → Option RunError × List Event
serve zero ending = (some bad_arguments, [])
serve (suc timeout) ending =
    (ending_error ending, workers_started ∷ listener_started ∷ ending_events ending)

-- `Run`: the deferred calls come last, the later first.
unfoldable pub run_application : Application → Ending → Option RunError × List Event
unfolding serve
run_application application ending =
    let (e, events) = serve application.config.shutdown_timeout ending in
    (e, ready_on ∷ events ++ closed ∷ ready_off ∷ [])

abbrev pub pool_events : List PoolEvent → List Event
pool_events [] = []
pool_events (pool_opened ∷ events) = opened ∷ pool_events events
pool_events (pool_closed ∷ events) = closed ∷ pool_events events

abbrev pub exit_code : Option RunError → ℕ
exit_code none = 0
exit_code (some e) = 1

abbrev pub run_built : Ending → Result BuildError Application × List PoolEvent → ℕ × List Event
run_built ending (err e, events) = (1, pool_events events)
run_built ending (ok application, events) =
    let (e, ran) = run_application application ending in (exit_code e, pool_events events ++ ran)

abbrev pub run_loaded : Library → Outcomes → Ending → Result ConfigError Config → ℕ × List Event
run_loaded library outcomes ending (err e) = (1, [])
run_loaded library outcomes ending (ok config) = run_built ending (build library outcomes config)

-- `run` of `main`: the exit code.
unfoldable pub run : Library → Lookup → Outcomes → Ending → ℕ × List Event
unfolding load_from_lookup build run_application
run library lookup outcomes ending =
    run_loaded library outcomes ending (load_from_lookup library (some lookup))

-- `Ready` of the readiness gate: false is `errNotReady`, else what the ping of the pool gives.
pub data GateError : Type 0 where
  not_ready ping_failed : GateError

unfoldable pub ready : Bool → Bool → Option GateError
ready false ping = some not_ready
ready true false = some ping_failed
ready true true = none
