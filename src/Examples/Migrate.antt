-- ===== src/Examples/Migrate.antt =====
-- Two migrations, of which a replica has applied one without an answer.
use fx_quotes.Prelude.{◌≡◌, refl, false, List, [], ◌∷◌, ◌++◌, Option, some, ok}
use fx_quotes.Text.{Text, codes, text_eq}
use fx_quotes.Usecase.Commands.{internal}
use fx_quotes.Postgres.Tx.{answered, unconfirmed}
use fx_quotes.Postgres.Migrate.{
  Migrated, MigrationIo, run_migrations, apply_all, apply_migration, recorded, sort_strings,
}
use fx_quotes.Postgres.Migrate.Replay.{IsReplay, apply_each, unmigrated, run_migrations-IsReplay}
use fx_quotes.Postgres.Migrate.Rerun.{run_migrations_twice}

abbrev quotes : Text
quotes = codes "migrations/001_quotes.sql"

abbrev indexes : Text
indexes = codes "migrations/002_indexes.sql"

-- The schema is the list of the scripts that have run.
abbrev files : Text → Option (List Text → Option (List Text))
files name = some (λ ran. some (ran ++ name ∷ []))

abbrev quiet : MigrationIo
quiet = record { prepare_fails = false; record_fails = false; commit = answered }

abbrev lost : MigrationIo
lost = record quiet { commit = unconfirmed internal }

-- The first of them is recorded already.
abbrev half_migrated : Migrated (List Text)
half_migrated = apply_each files [] ((quotes, lost) ∷ []) (unmigrated files [])

run_migrations-IsReplay_example :
    IsReplay files [] (run_migrations files (λ name. quiet) (indexes ∷ quotes ∷ []) half_migrated).0
run_migrations-IsReplay_example =
    run_migrations-IsReplay files [] ((quotes, lost) ∷ []) (λ name. quiet) (indexes ∷ quotes ∷ [])

half_migrated-runs :
    run_migrations files (λ name. quiet) (indexes ∷ quotes ∷ []) half_migrated
    ≡ (record { ledger = quotes ∷ indexes ∷ []; schema = quotes ∷ indexes ∷ [] }, ok tt)
unfolding run_migrations apply_all apply_migration recorded sort_strings text_eq
half_migrated-runs = refl

half_migrated-succeeds :
    (run_migrations files (λ name. quiet) (indexes ∷ quotes ∷ []) half_migrated).1 ≡ ok tt
unfolding run_migrations apply_all apply_migration recorded sort_strings text_eq
half_migrated-succeeds = refl

run_migrations_twice_example :
    let migrated = (run_migrations files (λ name. quiet) (indexes ∷ quotes ∷ []) half_migrated).0 in
    (run_migrations files (λ name. lost) (indexes ∷ quotes ∷ []) migrated).0 ≡ migrated
run_migrations_twice_example =
    run_migrations_twice files (λ name. quiet) (λ name. lost) (indexes ∷ quotes ∷ []) half_migrated
      half_migrated-succeeds
