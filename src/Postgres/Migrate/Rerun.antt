-- ===== src/Postgres/Migrate/Rerun.antt =====
-- Runs of the migrations behind one that has succeeded.
use fx_quotes.Prelude.{
  ◌≡◌, refl, inl, inr, true, false, List, [], ◌∷◌, ◌++◌, Option, none, some, Result, ok, err, arith,
  Bool-cases, if_both, if_cases,
}
use fx_quotes.Text.{Text, text_eq}
use fx_quotes.Text.Laws.{text_eq_refl}
use fx_quotes.Postgres.Tx.{Commit, answered, refused, unconfirmed}
use fx_quotes.Postgres.Migrate.{
  Migrated, MigrationIo, MigrateError, recorded, commit_migration, record_failed, prepare_failed,
  record_migration, run_script, apply_migration, apply_all, then_all, run_migrations, sort_strings,
}

-- All the names are recorded.
abbrev AllRecorded : List Text → List Text → Type 0
AllRecorded [] ledger = Unit
AllRecorded (name ∷ names) ledger = (recorded name ledger ≡ true) × AllRecorded names ledger

recorded-append :
    (name : Text) (ns : List Text) (n : Text)
    → recorded name ns ≡ true
    → recorded name (ns ++ n ∷ []) ≡ true
unfolding recorded
recorded-append name [] n h = ground (arith, h)
recorded-append name (m ∷ ns) n h = elim (Bool-cases (text_eq m name)) [
  | inl hit ↦ rw hit
  | inr other ↦ rw (other, recorded-append name ns n (ground (arith, h, other)))
]

recorded-last : (name : Text) (ns : List Text) → recorded name (ns ++ name ∷ []) ≡ true
unfolding recorded
recorded-last name [] = rw (text_eq_refl name)
recorded-last name (m ∷ ns) = ground (arith, recorded-last name ns)

module _ {S : Type 0} (files : Text → Option (S → Option S)) where
  -- What one file does: the ledger only grows, the file is recorded where it succeeds, and nothing
  -- changes where it was recorded.
  abbrev Grows : Text → Migrated S → Migrated S × Result MigrateError (Unit {0}) → Type 0
  Grows name db out =
      ((n : Text) → recorded n db.ledger ≡ true → recorded n out.0.ledger ≡ true)
      × (out.1 ≡ ok tt → recorded name out.0.ledger ≡ true)
      × (recorded name db.ledger ≡ true → out.0 ≡ db)

  commit_same : (commit : Commit) (db : Migrated S) → (commit_migration files commit db db).0 ≡ db
  commit_same answered db = refl
  commit_same (refused f) db = refl
  commit_same (unconfirmed f) db = refl

  commit-Grows :
      (commit : Commit) (name : Text) (db : Migrated S) (schema : S)
      → recorded name db.ledger ≡ false
      → Grows name db (
          commit_migration files commit db
            (record { ledger = db.ledger ++ name ∷ []; schema = schema }))
  commit-Grows answered name db schema fresh = (
    λ n. recorded-append n db.ledger name,
    λ _. recorded-last name db.ledger,
    λ old. cc (old, fresh),
  )
  commit-Grows (refused f) name db schema fresh =
      (λ n h. h, λ failed. cc failed, λ old. cc (old, fresh))
  commit-Grows (unconfirmed f) name db schema fresh =
      (λ n. recorded-append n db.ledger name, λ failed. cc failed, λ old. cc (old, fresh))

  run_script-Grows :
      (io : MigrationIo) (name : Text) (db : Migrated S) (script : Option (S → Option S))
      → recorded name db.ledger ≡ false
      → Grows name db (run_script files io name db script)
  run_script-Grows io name db none fresh = (λ n h. h, λ failed. cc failed, λ old. cc (old, fresh))
  run_script-Grows io name db (some sql) fresh = ran (sql db.schema)
    where
      ran : (o : Option S) → Grows name db (record_migration files io name db o)
      ran none = (λ n h. h, λ failed. cc failed, λ old. cc (old, fresh))
      ran (some schema) =
          if_both (Grows name db) io.record_fails (db, err record_failed) _
            (λ n h. h, λ failed. cc failed, λ old. cc (old, fresh))
            (commit-Grows io.commit name db schema fresh)

  apply_migration-Grows :
      (io : MigrationIo) (name : Text) (db : Migrated S)
      → Grows name db (apply_migration files io name db)
  unfolding apply_migration
  apply_migration-Grows io name db =
      if_both (Grows name db) io.prepare_fails (db, err prepare_failed) _
        (λ n h. h, λ failed. cc failed, λ _. refl)
        (if_cases (Grows name db) (recorded name db.ledger) (commit_migration files io.commit db db)
          (run_script files io name db (files name))
          (λ old.
            let same = commit_same io.commit db in (λ n h. rw same h, λ _. rw same old, λ _. same))
          (λ fresh. run_script-Grows io name db (files name) fresh))

  then_all-keeps :
      (f : Migrated S → Migrated S × Result MigrateError (Unit {0}))
      (out : Migrated S × Result MigrateError (Unit {0})) (n : Text)
      → ((db : Migrated S) → recorded n db.ledger ≡ true → recorded n (f db).0.ledger ≡ true)
      → recorded n out.0.ledger ≡ true
      → recorded n (then_all files f out).0.ledger ≡ true
  then_all-keeps f (db, ok done) n keeps h = keeps db h
  then_all-keeps f (db, err e) n keeps h = h

  apply_all-keeps :
      (io : Text → MigrationIo) (names : List Text) (n : Text) (db : Migrated S)
      → recorded n db.ledger ≡ true
      → recorded n (apply_all files io names db).0.ledger ≡ true
  unfolding apply_all
  apply_all-keeps io [] n db h = h
  apply_all-keeps io (name ∷ names) n db h =
      then_all-keeps (apply_all files io names) (apply_migration files (io name) name db) n
        (apply_all-keeps io names n) ((apply_migration-Grows (io name) name db).0 n h)

  then_all-AllRecorded :
      (io : Text → MigrationIo) (name : Text) (names : List Text)
      (out : Migrated S × Result MigrateError (Unit {0}))
      → (out.1 ≡ ok tt → recorded name out.0.ledger ≡ true)
      → ((db : Migrated S)
          → (apply_all files io names db).1 ≡ ok tt
          → AllRecorded names (apply_all files io names db).0.ledger)
      → (then_all files (apply_all files io names) out).1 ≡ ok tt
      → AllRecorded (name ∷ names) (then_all files (apply_all files io names) out).0.ledger
  then_all-AllRecorded io name names (db, ok tt) own rest h =
      (apply_all-keeps io names name db (own refl), rest db h)
  then_all-AllRecorded io name names (db, err e) own rest h = cc h

  apply_all-AllRecorded :
      (io : Text → MigrationIo) (names : List Text) (db : Migrated S)
      → (apply_all files io names db).1 ≡ ok tt
      → AllRecorded names (apply_all files io names db).0.ledger
  unfolding apply_all
  apply_all-AllRecorded io [] db h = tt
  apply_all-AllRecorded io (name ∷ names) db h =
      then_all-AllRecorded io name names (apply_migration files (io name) name db)
        (apply_migration-Grows (io name) name db).1 (apply_all-AllRecorded io names) h

  then_all-same :
      (f : Migrated S → Migrated S × Result MigrateError (Unit {0}))
      (out : Migrated S × Result MigrateError (Unit {0})) (db : Migrated S)
      → out.0 ≡ db
      → (f db).0 ≡ db
      → (then_all files f out).0 ≡ db
  then_all-same f (db', ok done) db same h = rw same h
  then_all-same f (db', err e) db same h = same

  apply_all-recorded :
      (io : Text → MigrationIo) (names : List Text) (db : Migrated S)
      → AllRecorded names db.ledger
      → (apply_all files io names db).0 ≡ db
  unfolding apply_all
  apply_all-recorded io [] db h = refl
  apply_all-recorded io (name ∷ names) db h =
      then_all-same (apply_all files io names) (apply_migration files (io name) name db) db
        ((apply_migration-Grows (io name) name db).2 h.0) (apply_all-recorded io names db h.1)

  -- Once `runMigrations` has succeeded, a later run over the same files, whatever fails in it, leaves
  -- the database and the ledger as they are.
  pub run_migrations_twice :
      (io io' : Text → MigrationIo) (names : List Text) (db : Migrated S)
      → (run_migrations files io names db).1 ≡ ok tt
      → let migrated = (run_migrations files io names db).0 in
        (run_migrations files io' names migrated).0 ≡ migrated
  unfolding run_migrations
  run_migrations_twice io io' names db h =
      let sorted = sort_strings names in
      apply_all-recorded io' sorted (apply_all files io sorted db).0
        (apply_all-AllRecorded io sorted db h)
