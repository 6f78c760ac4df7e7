-- ===== src/Postgres/Steps.antt =====
-- The calls of the store as steps of one database. Each transaction of the program is one step;
-- whatever other transactions do in between are steps too.
use fx_quotes.Prelude.{ℕ, Bool, List, [], ◌∷◌, Option}
use fx_quotes.Text.{Text}
use fx_quotes.Usecase.Commands.{CreateOrGetCommand, CompleteCommand, RetryCommand, FailCommand}
use fx_quotes.Postgres.Schema.{Row, Db}
use fx_quotes.Postgres.Tx.{Commit}
use fx_quotes.Postgres.Queue.{Clock, claim_next, retry, fail}
use fx_quotes.Postgres.Queue.Completion.{CompleteIo, complete}
use fx_quotes.Postgres.Queue.Recovery.{recover_expired_batch}
use fx_quotes.Postgres.Store.{CreateIo, create_or_get}

-- A call with its environment.
pub data Call : Type 0 where
  creates : CreateIo → CreateOrGetCommand → Call
  claims : Commit → (Row → Bool) → Clock → ℕ → Call
  completes : CompleteIo → Clock → CompleteCommand → Call
  retries : Commit → Clock → RetryCommand → Call
  fails : Commit → Clock → FailCommand → Call
  recovers : Commit → (Row → Bool) → Clock → ℕ → Call

-- All replicas have the same limits.
pub record Limits : Type 0 where
  pub max_active : ℕ
  pub max_attempts : ℕ

module _ (numeric : Text → Option Text) (limits : Limits) where
  unfoldable pub step : Db → Call → Db
  step db (creates io command) = (create_or_get limits.max_active io command db).0
  step db (claims commit locked clock lease) = (claim_next commit locked clock lease db).0
  step db (completes io clock command) = (complete numeric io clock command db).0
  step db (retries commit clock command) = (retry commit clock command db).0
  step db (fails commit clock command) = (fail commit clock command db).0
  step db (recovers commit locked clock batch) =
      (recover_expired_batch commit locked clock limits.max_attempts batch db).0

  unfoldable pub run : Db → List Call → Db
  run db [] = db
  run db (c ∷ cs) = run (step db c) cs

abbrev pub empty_db : Db
empty_db = record { updates = []; latest = []; next_seq = 1 }
