-- ===== src/Postgres/Migrate.antt =====
-- internal/adapter/postgres/migrate.go. `S` is what the scripts change; the ledger is the names in
-- `schema_migrations` in the order of their insertion, none where the table is not there yet.
pub mod Replay
pub mod Rerun
use fx_quotes.Prelude.{
  ℕ, zero, suc, Bool, true, false, not, ◌&&◌, ◌||◌, List, [], ◌∷◌, ◌++◌, Option, none, some, Result,
  ok, err, ltb, ◌==◌, if◌then◌else◌,
}
use fx_quotes.Text.{Text, text_eq}
use fx_quotes.Postgres.Tx.{Commit, answered, refused, unconfirmed}

pub record Migrated (S : Type 0) : Type 0 where
  pub ledger : List Text
  pub schema : S

-- The faults of the calls for one file: those up to the read of the ledger, the insertion into it,
-- and the commit.
pub record MigrationIo : Type 0 where
  pub prepare_fails : Bool
  pub record_fails : Bool
  pub commit : Commit

pub data MigrateError : Type 0 where
  prepare_failed read_failed script_failed record_failed commit_failed : MigrateError

abbrev pub text_before : Text → Text → Bool
text_before [] t = true
text_before (c ∷ s) [] = false
text_before (c ∷ s) (d ∷ t) = ltb c d || (c == d && text_before s t)

abbrev insert_text : Text → List Text → List Text
insert_text s [] = s ∷ []
insert_text s (t ∷ ts) =
    let rest = insert_text s ts in if text_before s t then s ∷ t ∷ ts else t ∷ rest

-- `sort.Strings`.
unfoldable pub sort_strings : List Text → List Text
sort_strings [] = []
sort_strings (s ∷ ss) = insert_text s (sort_strings ss)

unfoldable pub recorded : Text → List Text → Bool
recorded name [] = false
recorded name (n ∷ ns) = text_eq n name || recorded name ns

module _ {S : Type 0} (files : Text → Option (S → Option S)) where
  -- The commit of a transaction that has succeeded.
  abbrev pub commit_migration :
      Commit → Migrated S → Migrated S → Migrated S × Result MigrateError (Unit {0})
  commit_migration answered before after = (after, ok tt)
  commit_migration (refused f) before after = (before, err commit_failed)
  commit_migration (unconfirmed f) before after = (after, err commit_failed)

  abbrev pub record_migration :
      MigrationIo → Text → Migrated S → Option S → Migrated S × Result MigrateError (Unit {0})
  record_migration io name db none = (db, err script_failed)
  record_migration io name db (some schema) =
      if io.record_fails
      then (db, err record_failed)
      else commit_migration io.commit db
          (record { ledger = db.ledger ++ name ∷ []; schema = schema })

  abbrev pub run_script :
      MigrationIo
      → Text
      → Migrated S
      → Option (S → Option S)
      → Migrated S × Result MigrateError (Unit {0})
  run_script io name db none = (db, err read_failed)
  run_script io name db (some sql) = record_migration io name db (sql db.schema)

  -- `applyMigration`: one transaction, under the lock of the migrations.
  unfoldable pub apply_migration :
      MigrationIo → Text → Migrated S → Migrated S × Result MigrateError (Unit {0})
  unfolding recorded
  apply_migration io name db =
      if io.prepare_fails
      then (db, err prepare_failed)
      else if recorded name db.ledger
      then commit_migration io.commit db db
      else run_script io name db (files name)

  abbrev pub then_all :
      (Migrated S → Migrated S × Result MigrateError (Unit {0}))
      → Migrated S × Result MigrateError (Unit {0})
      → Migrated S × Result MigrateError (Unit {0})
  then_all f (db, ok done) = f db
  then_all f (db, err e) = (db, err e)

  -- The loop of `runMigrations`; the faults of each file are an argument.
  unfoldable pub apply_all :
      (Text → MigrationIo) → List Text → Migrated S → Migrated S × Result MigrateError (Unit {0})
  unfolding apply_migration
  apply_all io [] db = (db, ok tt)
  apply_all io (name ∷ names) db = then_all (apply_all io names) (apply_migration (io name) name db)

  -- `runMigrations` on the names of the files.
  unfoldable pub run_migrations :
      (Text → MigrationIo) → List Text → Migrated S → Migrated S × Result MigrateError (Unit {0})
  unfolding apply_all sort_strings
  run_migrations io names db = apply_all io (sort_strings names) db
