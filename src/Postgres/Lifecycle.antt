-- ===== src/Postgres/Lifecycle.antt =====
-- The life of a row over any history of calls.
use fx_quotes.Prelude.{
  ◌≤◌, ◌≡◌, refl, ◌∙◌, inl, inr, false, List, [], ◌∷◌, Option, arith, Memᴰ, In-append_left,
}
use fx_quotes.Text.{Text}
use fx_quotes.Postgres.Schema.{Row, Db, is_active}
use fx_quotes.Postgres.Steps.{Call, Limits, step, run}
use fx_quotes.Postgres.Effect.{Rules, SameTask, lease, release, succeed, give_up}
use fx_quotes.Postgres.Effect.Step.{rules_of, step-Effect}
use fx_quotes.Postgres.Evolution.{Moves, same_row, Effect-Moves, In-Moves}
use fx_quotes.Postgres.Invariant.{Inv, step-Inv}

-- Completed or failed.
abbrev pub IsFinished : Row → Type 0
IsFinished r = is_active r.status ≡ false

finished_stays : (rules : Rules) (r s : Row) → Moves rules r s → IsFinished r → s ≡ r
finished_stays rules r s (same, inl e) f = e
finished_stays rules r s (same, inr (lease p q n)) f = cc (rw p at f)
finished_stays rules r s (same, inr (release p q n b)) f = cc (rw p at f)
finished_stays rules r s (same, inr (succeed p q n m)) f = cc (rw p at f)
finished_stays rules r s (same, inr (give_up p q n)) f = cc (rw p at f)

attempt_grows : (rules : Rules) (r s : Row) → Moves rules r s → r.attempt ≤ s.attempt
attempt_grows rules r s (same, inl e) = rw e (omega arith)
attempt_grows rules r s (same, inr (lease p q n)) = omega arith
attempt_grows rules r s (same, inr (release p q n b)) = omega arith
attempt_grows rules r s (same, inr (succeed p q n m)) = omega arith
attempt_grows rules r s (same, inr (give_up p q n)) = omega arith

module _ (numeric : Text → Option Text) (limits : Limits) where
  -- Every step moves each row along one edge of the state diagram at most, and loses none.
  pub step-In :
      (db : Db) (call : Call) {r : Row}
      → Inv limits.max_active db
      → Memᴰ r db.updates
      → (s : Row) × Memᴰ s (step numeric limits db call).updates × Moves (rules_of limits call) r s
  step-In db call v m =
      let (rows, added, moves, e) =
        Effect-Moves (rules_of limits call) (step-Effect numeric limits db call v.distinct) in
      let (s, listed, moved) = In-Moves (rules_of limits call) db.updates rows moves m in
      (s, rw e (In-append_left rows added listed), moved)

  -- A property of a row that moves keep is kept by every history.
  pub run_row {ℓ} :
      (P : Row → Type ℓ)
      → ((rules : Rules) (r s : Row) → Moves rules r s → P r → P s)
      → (db : Db) (calls : List Call) {r : Row} → Inv limits.max_active db
      → Memᴰ r db.updates
      → P r
      → (s : Row) × Memᴰ s (run numeric limits db calls).updates × P s
  unfolding run
  run_row P keep db [] {r} v m p = (r, m, p)
  run_row P keep db (c ∷ cs) {r} v m p =
      let (s, listed, moved) = step-In db c v m in
      run_row P keep (step numeric limits db c) cs (step-Inv numeric limits db c v) listed
        (keep (rules_of limits c) r s moved p)

  -- In a store that has the invariant, whatever calls follow, a completed or failed row stays in
  -- the table as it is.
  pub run-finished :
      (db : Db) (calls : List Call) (r : Row)
      → Inv limits.max_active db
      → Memᴰ r db.updates
      → IsFinished r
      → Memᴰ r (run numeric limits db calls).updates
  run-finished db calls r v m f =
      let (s, listed, same) =
        run_row (λ s. s ≡ r) (λ rules x y moved e. finished_stays rules x y moved (rw e f) ∙ e) db
          calls v m refl in
      rw same at listed

  -- In a store that has the invariant, whatever calls follow, a row is still in the table under its id, number, pair and idempotency
  -- key, and its attempt has not gone down.
  pub run-SameTask :
      (db : Db) (calls : List Call) (r : Row)
      → Inv limits.max_active db
      → Memᴰ r db.updates
      → (s : Row) × Memᴰ s (run numeric limits db calls).updates
        × (SameTask r s × (r.attempt ≤ s.attempt))
  run-SameTask db calls r v m =
      run_row (λ s. SameTask r s × (r.attempt ≤ s.attempt))
        (λ rules x y moved h.
          (SameTask-trans h.0 moved.0, omega (arith, attempt_grows rules x y moved, h.1)))
        db calls v m (same_row r, omega arith)
    where
      SameTask-trans : {x y : Row} → SameTask r x → SameTask x y → SameTask r y
      SameTask-trans p q = record {
        same_id = q.same_id ∙ p.same_id;
        same_seq = q.same_seq ∙ p.same_seq;
        same_pair = q.same_pair ∙ p.same_pair;
        same_key = q.same_key ∙ p.same_key;
        same_created = q.same_created ∙ p.same_created;
      }
