-- ===== src/App/Build.antt =====
-- internal/app/app.go: `Build`. The connection to the database and the migrations are arguments;
-- what is done to the pool of connections is recorded.
pub mod Loaded
use fx_quotes.Prelude.{
  ℕ, zero, suc, ◌+◌, ◌*◌, min, max, Bool, true, false, not, List, [], ◌∷◌, Option, none, some,
  Result, ok, err, ◌>>=◌, if◌then◌else◌,
}
use fx_quotes.Prelude.Int.{ℤ, pos}
use fx_quotes.Text.{Text}
use fx_quotes.Usecase.Retry.{RetryPolicy, second, minute}
use fx_quotes.Frankfurter.Client.{Provider}
use fx_quotes.Frankfurter.Client
use fx_quotes.Pool.{Pool}
use fx_quotes.Pool
use fx_quotes.App.Config.{Library, Config}

pub data BuildError : Type 0 where
  logger_required parse_failed open_failed migrate_failed provider_failed workers_failed :
      BuildError

-- The timeouts of `http.Server`.
pub record Server : Type 0 where
  pub address : Text
  pub read_header_timeout : ℕ
  pub read_timeout : ℕ
  pub write_timeout : ℕ
  pub idle_timeout : ℕ
  pub request_timeout : ℕ
  pub max_header_bytes : ℕ

pub record Application : Type 0 where
  pub config : Config
  pub max_conns : ℕ
  pub provider : Provider
  pub max_attempts : ℕ
  pub policy : RetryPolicy
  pub max_active : ℕ
  pub workers : Pool
  pub server : Server

-- What happens outside of the code: the logger is there, the URL of the database is read, the pool
-- of connections opens, the migrations run.
pub record Outcomes : Type 0 where
  pub logger : Bool
  pub parsed : Bool
  pub opened : Bool
  pub migrated : Bool

pub data PoolEvent : Type 0 where
  pool_opened pool_closed : PoolEvent

-- `MaxConns` of the pool.
unfoldable pub max_conns : ℕ → ℕ
max_conns workers = min 16 (max 8 (workers + 6))

abbrev pub provider_config : Config → Client.Config
provider_config config = record {
  base_url = config.provider_url;
  timeout = pos config.provider_timeout;
}

abbrev pub worker_config : Config → Pool.Config
worker_config config = record {
  concurrency = pos config.worker_count;
  lease_duration = pos config.lease_duration;
  poll_interval = pos config.poll_interval;
  recovery_interval = pos config.recovery_interval;
  error_delay = pos config.worker_error_delay;
}

abbrev pub server_of : Config → Server
server_of config = record {
  address = config.listen_address;
  read_header_timeout = 5 * second;
  read_timeout = config.read_timeout;
  write_timeout = config.write_timeout;
  idle_timeout = minute;
  request_timeout = config.request_timeout;
  max_header_bytes = 16384;
}

abbrev pub required : {A : Type 0} → BuildError → Option A → Result BuildError A
required e none = err e
required e (some a) = ok a

-- `Build` behind the opening of the pool.
unfoldable pub assemble : Library → Bool → Config → Result BuildError Application
unfolding max_conns Client.new Pool.new
assemble library migrated config = if not migrated then err migrate_failed else do
  provider ← required provider_failed (Client.new library.parse_url true (provider_config config))
  workers ← required workers_failed (Pool.new true (worker_config config))
  ok (record {
    config = config;
    max_conns = max_conns config.worker_count;
    provider = provider;
    max_attempts = config.max_attempts;
    policy = record { initial = pos second; maximum = pos minute };
    max_active = config.max_active;
    workers = workers;
    server = server_of config;
  })

-- The deferred `Close`, where `closePool` is still set.
abbrev pub close_unless_built : Result BuildError Application → List PoolEvent
close_unless_built (ok application) = pool_opened ∷ []
close_unless_built (err e) = pool_opened ∷ pool_closed ∷ []

-- `Build` with what its steps give: the logger, the URL of the database, the pool of connections,
-- and the rest.
unfoldable pub build_with :
    Bool
    → Bool
    → Bool
    → Result BuildError Application
    → Result BuildError Application × List PoolEvent
build_with logger parsed opened application =
    if not logger
    then (err logger_required, [])
    else if not parsed
    then (err parse_failed, [])
    else if not opened
    then (err open_failed, [])
    else (application, close_unless_built application)

unfoldable pub build : Library → Outcomes → Config → Result BuildError Application × List PoolEvent
unfolding assemble build_with
build library outcomes config =
    build_with outcomes.logger outcomes.parsed outcomes.opened
      (assemble library outcomes.migrated config)
