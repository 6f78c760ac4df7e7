-- ===== src/Examples/World.antt =====
-- A store with a history: one update is created, leased, retried, leased again, and completed.
use fx_quotes.Prelude.{ℕ, Bool, false, List, [], ◌∷◌, none}
use fx_quotes.Text.{Text, codes}
use fx_quotes.Entity.Pair.{Pair, usd, eur}
use fx_quotes.Entity.Update.{Quote}
use fx_quotes.Usecase.Commands.{CreateOrGetCommand}
use fx_quotes.Postgres.Schema.{Row}
use fx_quotes.Postgres.Tx.{answered}
use fx_quotes.Postgres.Queue.{Clock}
use fx_quotes.Postgres.Queue.Completion.{CompleteIo}
use fx_quotes.Postgres.Store.{CreateIo}
use fx_quotes.Postgres.Steps.{Call, creates, claims, completes, retries, Limits}

abbrev pub limits : Limits
limits = record { max_active = 2; max_attempts = 3 }

abbrev pub first_id : Text
first_id = codes "00000000-0000-4000-8000-000000000001"

abbrev pub pair : Pair
pair = record { base = usd; quote = eur }

abbrev pub create_io : CreateIo
create_io = record {
  gate = none;
  begin = none;
  lock = none;
  random = none;
  query = none;
  commit = answered;
  new_id = first_id;
  created_at = 10;
  ready_at = 10;
}

abbrev pub create_command : CreateOrGetCommand
create_command = record { pair = pair; idempotency_key = codes "key" }

abbrev pub clock_at : ℕ → Clock
clock_at t = record { statement = t; wall = λ _. t }

abbrev pub unlocked : Row → Bool
unlocked r = false

abbrev pub quote : Quote
quote = record {
  pair = pair;
  rate = record { decimal = codes "0.9234" };
  provider = codes "frankfurter-ecb";
  source_date = 20000;
  updated_at = 0;
}

abbrev pub complete_io : CompleteIo
complete_io = record { begin = none; update = none; latest = none; commit = answered }

abbrev pub creating : Call
creating = creates create_io create_command

abbrev pub claiming : ℕ → Call
claiming t = claims answered unlocked (clock_at t) 15_000_000_000

abbrev pub completing : ℕ → ℕ → Call
completing t attempt =
    completes complete_io (clock_at t)
      (record { update_id = first_id; attempt = attempt; quote = quote })

abbrev pub retrying : ℕ → ℕ → Call
retrying t attempt =
    retries answered (clock_at t)
      (record { update_id = first_id; attempt = attempt; retry_after = 1000 })

-- The update waits for its second attempt.
abbrev pub waiting : List Call
waiting = creating ∷ claiming 20 ∷ retrying 30 1 ∷ []

abbrev pub finishing : List Call
finishing = claiming 40 ∷ completing 50 2 ∷ []
