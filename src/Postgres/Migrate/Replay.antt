-- ===== src/Postgres/Migrate/Replay.antt =====
-- The schema is what the recorded scripts make of the first one.
use fx_quotes.Prelude.{
  ℕ, ◌+◌, ◌≤◌, ◌≡◌, refl, sym, inl, inr, false, List, [], ◌∷◌, ◌++◌, Option, none, some, Result, ok,
  err, arith, Bool-cases, Option-cases, if◌then◌else◌, if_both, if_cases,
}
use fx_quotes.Text.{Text, text_eq}
use fx_quotes.Text.Laws.{text_eq_iff}
use fx_quotes.Postgres.Tx.{Commit, answered, refused, unconfirmed}
use fx_quotes.Postgres.Migrate.{
  Migrated, MigrationIo, MigrateError, prepare_failed, record_failed, recorded, commit_migration,
  record_migration, run_script, apply_migration, apply_all, then_all, run_migrations, sort_strings,
}

-- How often a name is recorded.
abbrev pub times : Text → List Text → ℕ
times name [] = 0
times name (n ∷ ns) = (if text_eq n name then 1 else 0) + times name ns

times-append :
    (name : Text) (xs ys : List Text) → times name (xs ++ ys) ≡ times name xs + times name ys
times-append name [] ys = omega arith
times-append name (x ∷ xs) ys = omega (arith, times-append name xs ys)

times-recorded : (name : Text) (ns : List Text) → recorded name ns ≡ false → times name ns ≡ 0
unfolding recorded
times-recorded name [] h = refl
times-recorded name (n ∷ ns) h =
    let rest : recorded name ns ≡ false = ground (arith, h) in
    ground (arith, h, times-recorded name ns rest)

module _ {S : Type 0} (files : Text → Option (S → Option S)) (first : S) where
  abbrev bind_option : Option S → (S → Option S) → Option S
  bind_option none f = none
  bind_option (some s) f = f s

  -- One script of a replay.
  abbrev replay_one : Option (S → Option S) → S → Option S
  replay_one none s = none
  replay_one (some sql) s = sql s

  -- The recorded scripts, one behind the other.
  abbrev pub replay : List Text → S → Option S
  replay [] s = some s
  replay (name ∷ names) s = bind_option (replay_one (files name) s) (replay names)

  -- Each script is recorded once, and the schema is what the recorded scripts have made.
  abbrev pub IsReplay : Migrated S → Type 0
  IsReplay db =
      (replay db.ledger first ≡ some db.schema) × ((name : Text) → times name db.ledger ≤ 1)

  replay-append :
      (names : List Text) (name : Text) (sql : S → Option S) (s s' s'' : S)
      → files name ≡ some sql
      → sql s' ≡ some s''
      → replay names s ≡ some s'
      → replay (names ++ name ∷ []) s ≡ some s''
  replay-append [] name sql s s' s'' file ran h = let same : s ≡ s' = cc h in rw (file, same, ran)
  replay-append (n ∷ names) name sql s s' s'' file ran h =
      elim (Option-cases (replay_one (files n) s)) [
        | inl stuck ↦ cc (rw stuck at h)
        | inr (t, went) ↦ rw went (replay-append names name sql t s' s'' file ran (rw went at h))
      ]

  commit_migration-IsReplay :
      (commit : Commit) (before after : Migrated S)
      → IsReplay before
      → IsReplay after
      → IsReplay (commit_migration files commit before after).0
  commit_migration-IsReplay answered before after hb ha = ha
  commit_migration-IsReplay (refused f) before after hb ha = hb
  commit_migration-IsReplay (unconfirmed f) before after hb ha = ha

  run_script-IsReplay :
      (io : MigrationIo) (name : Text) (db : Migrated S) (script : Option (S → Option S))
      → files name ≡ script
      → recorded name db.ledger ≡ false
      → IsReplay db
      → IsReplay (run_script files io name db script).0
  run_script-IsReplay io name db none file fresh h = h
  run_script-IsReplay io name db (some sql) file fresh h = recording (sql db.schema) refl
    where
      once : (n : Text) → times n (db.ledger ++ name ∷ []) ≤ 1
      once n = elim (Bool-cases (text_eq name n)) [
        | inl hit ↦
            let same : n ≡ name = sym ((text_eq_iff name n).0 hit) in
            let absent : times n db.ledger ≡ 0 =
              rw (← same) at (times-recorded name db.ledger fresh) in
            ground (arith, times-append n db.ledger (name ∷ []), hit, absent)
        | inr other ↦ ground (arith, times-append n db.ledger (name ∷ []), other, h.1 n)
      ]

      recording :
          (o : Option S) → sql db.schema ≡ o → IsReplay (record_migration files io name db o).0
      recording none ran = h
      recording (some schema) ran =
          let after : Migrated S = record { ledger = db.ledger ++ name ∷ []; schema = schema } in
          if_both (λ (out : Migrated S × Result MigrateError (Unit {0})). IsReplay out.0)
            io.record_fails (db, err record_failed) (commit_migration files io.commit db after) h
            (commit_migration-IsReplay io.commit db after h
              (replay-append db.ledger name sql first db.schema schema file ran h.0, once))

  apply_migration-IsReplay :
      (io : MigrationIo) (name : Text) (db : Migrated S)
      → IsReplay db
      → IsReplay (apply_migration files io name db).0
  unfolding apply_migration
  apply_migration-IsReplay io name db h =
      let P = λ (out : Migrated S × Result MigrateError (Unit {0})). IsReplay out.0 in
      if_both P io.prepare_fails (db, err prepare_failed) _ h
        (if_cases P (recorded name db.ledger) (commit_migration files io.commit db db)
          (run_script files io name db (files name))
          (λ old. commit_migration-IsReplay io.commit db db h h)
          (λ fresh. run_script-IsReplay io name db (files name) refl fresh h))

  then_all-IsReplay :
      (f : Migrated S → Migrated S × Result MigrateError (Unit {0}))
      (out : Migrated S × Result MigrateError (Unit {0}))
      → ((db : Migrated S) → IsReplay db → IsReplay (f db).0)
      → IsReplay out.0
      → IsReplay (then_all files f out).0
  then_all-IsReplay f (db, ok done) keeps h = keeps db h
  then_all-IsReplay f (db, err e) keeps h = h

  apply_all-IsReplay :
      (io : Text → MigrationIo) (names : List Text) (db : Migrated S)
      → IsReplay db
      → IsReplay (apply_all files io names db).0
  unfolding apply_all
  apply_all-IsReplay io [] db h = h
  apply_all-IsReplay io (name ∷ names) db h =
      then_all-IsReplay (apply_all files io names) (apply_migration files (io name) name db)
        (apply_all-IsReplay io names) (apply_migration-IsReplay (io name) name db h)

  -- Files that any replicas apply, one behind the other, with their faults.
  abbrev pub apply_each : List (Text × MigrationIo) → Migrated S → Migrated S
  apply_each [] db = db
  apply_each ((name, io) ∷ calls) db = apply_each calls (apply_migration files io name db).0

  abbrev pub unmigrated : Migrated S
  unmigrated = record { ledger = []; schema = first }

  apply_each-IsReplay :
      (calls : List (Text × MigrationIo)) (db : Migrated S)
      → IsReplay db
      → IsReplay (apply_each calls db)
  apply_each-IsReplay [] db h = h
  apply_each-IsReplay ((name, io) ∷ calls) db h =
      apply_each-IsReplay calls (apply_migration files io name db).0
        (apply_migration-IsReplay io name db h)

  -- Whatever files any replicas have applied before to a fresh database, and whatever fails then and
  -- now, also a commit whose answer is lost: after `runMigrations` the schema is what the recorded
  -- scripts make of the first one in the order of the records, and no script is recorded twice.
  pub run_migrations-IsReplay :
      (calls : List (Text × MigrationIo)) (io : Text → MigrationIo) (names : List Text)
      → IsReplay (run_migrations files io names (apply_each calls unmigrated)).0
  unfolding run_migrations
  run_migrations-IsReplay calls io names =
      apply_all-IsReplay io (sort_strings names) (apply_each calls unmigrated)
        (apply_each-IsReplay calls unmigrated (refl, λ name. omega arith))
