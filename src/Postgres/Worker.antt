-- ===== src/Postgres/Worker.antt =====
-- The PostgreSQL store as the store of the service, and a worker's pass over it.

pub mod Pass
pub mod Stale
use fx_quotes.Prelude.{ℕ, Bool, true, Option, Result}
use fx_quotes.Text.{Text}
use fx_quotes.Usecase.Commands.{Fault, StoreError}
use fx_quotes.Usecase.Retry.{RetryPolicy}
use fx_quotes.Usecase.Service.{Store, Service}
use fx_quotes.Postgres.Schema.{Row, Db}
use fx_quotes.Postgres.Tx.{Tx, Commit}
use fx_quotes.Postgres.Queue.{Clock, claim_next, retry, fail}
use fx_quotes.Postgres.Queue.Completion.{CompleteIo, complete}
use fx_quotes.Postgres.Queue.Recovery.{recover_expired}
use fx_quotes.Postgres.Store.{CreateIo, create_or_get, get_update, get_latest}
use fx_quotes.Postgres.Steps.{Limits}

-- The environment of the calls, and the parsers of the driver and the database.
pub record Env : Type 0 where
  pub create : CreateIo
  pub read : Option Fault
  pub claim : Commit
  pub complete : CompleteIo
  pub write : Commit
  pub clock : Clock
  pub locked : Row → Bool
  pub parent_done : Bool
  pub numeric : Text → Option Text
  pub scan_uuid : Text → Option Text

-- The database, and the field `recoveryBatchSize`.
pub record StoreState : Type 0 where
  pub db : Db
  pub batch : ℕ

abbrev pub on_db : {A : Type 0} → Tx A → StoreState → StoreState × Result StoreError A
on_db m s = (record s { db = (m s.db).0 }, (m s.db).1)

-- The methods of `*Store`.
abbrev pub postgres_store : Limits → Env → Store StoreState
postgres_store limits env = record {
  create_or_get = λ command. on_db (create_or_get limits.max_active env.create command);
  get_update = λ id. on_db (get_update env.scan_uuid env.read id);
  get_latest = λ pair. on_db (get_latest env.read pair);
  claim_next = λ lease. on_db (claim_next env.claim env.locked env.clock lease);
  complete = λ command. on_db (complete env.numeric env.complete env.clock command);
  retry = λ command. on_db (retry env.write env.clock command);
  fail = λ command. on_db (fail env.write env.clock command);
  recover_expired = λ max_attempts s.
      let pass =
        recover_expired env.claim env.locked env.clock env.parent_done max_attempts s.batch s.db in
      (record { db = pass.1; batch = pass.0 }, pass.2);
}

-- A service with a provider; the command-line wiring passes the same limit to service and store.
abbrev pub worker_service : Limits → RetryPolicy → Env → Service StoreState
worker_service limits policy env = record {
  store = postgres_store limits env;
  has_provider = true;
  max_attempts = limits.max_attempts;
  retry_policy = policy;
}
