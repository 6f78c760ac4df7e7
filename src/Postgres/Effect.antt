-- ===== src/Postgres/Effect.antt =====
-- What a step may do to the rows of `quote_updates`.
pub mod Calls
pub mod Admission
pub mod Step
use fx_quotes.Prelude.{
  ℕ, ◌+◌, ◌≤◌, ◌<◌, ◌≡◌, refl, ◌∙◌, ◌⊎◌, inl, inr, Bool, true, false, List, [], ◌∷◌, ◌++◌, Option,
  none, some, Result, ok, err, map, filter, arith, Memᴰ, Bool-cases,
}
use fx_quotes.Text.{Text}
use fx_quotes.Entity.Update.{pending, processing, completed, failed}
use fx_quotes.Usecase.Commands.{StoreError}
use fx_quotes.Postgres.Schema.{Row, Db, row_check}
use fx_quotes.Postgres.Tx.{
  Tx, Commit, answered, refused, unconfirmed, transaction, finish, rolled_back, update_rows,
  replace, all_pass,
}
use fx_quotes.Postgres.Store.{existing, active_count, nullif_empty, id_used}

-- The columns that no transition writes.
pub record SameTask (r s : Row) : Type 0 where
  pub same_id : s.id ≡ r.id
  pub same_seq : s.request_seq ≡ r.request_seq
  pub same_pair : s.pair ≡ r.pair
  pub same_key : s.idempotency_key ≡ r.idempotency_key
  pub same_created : s.created_at ≡ r.created_at

-- What a call allows: to complete a row, to put one back whose attempt is below a bound, and to add
-- one while fewer than `max_active` are active.
pub record Rules : Type 0 where
  pub may_succeed : Bool
  pub retry_below : ℕ
  pub max_active : ℕ

-- The edges of the state diagram.
pub data Edge (rules : Rules) (r s : Row) : Type 0 where
  lease : r.status ≡ pending → s.status ≡ processing → s.attempt ≡ r.attempt + 1 → Edge rules r s
  release :
      r.status ≡ processing
      → s.status ≡ pending
      → s.attempt ≡ r.attempt
      → r.attempt < rules.retry_below
      → Edge rules r s
  succeed :
      r.status ≡ processing
      → s.status ≡ completed
      → s.attempt ≡ r.attempt
      → rules.may_succeed ≡ true
      → Edge rules r s
  give_up : r.status ≡ processing → s.status ≡ failed → s.attempt ≡ r.attempt → Edge rules r s

-- An UPDATE that follows the diagram and breaks no constraint.
pub record Update (rules : Rules) (before after : Db) (test : Row → Bool) (change : Row → Row)
    : Type 0 where
  pub rows : after.updates ≡ map (replace test change) before.updates
  pub seq : after.next_seq ≡ before.next_seq
  pub checked : all_pass (map change (filter test before.updates)) ≡ true
  pub edges :
      (r : Row)
      → Memᴰ r before.updates
      → test r ≡ true
      → SameTask r (change r) × Edge rules r (change r)

-- An INSERT under the admission lock.
pub record Insert (before after : Db) (rules : Rules) (key : Text) (r : Row) : Type 0 where
  pub rows : after.updates ≡ before.updates ++ r ∷ []
  pub seq : after.next_seq ≡ before.next_seq + 1
  pub key_of : r.idempotency_key ≡ nullif_empty key
  pub key_new : existing key before.updates ≡ []
  pub room : active_count before.updates < rules.max_active
  pub fresh : r.status ≡ pending
  pub unclaimed : r.attempt ≡ 0
  pub numbered : r.request_seq ≡ before.next_seq
  pub id_new : id_used r.id before.updates ≡ false
  pub checked : row_check r ≡ true

pub data Effect (rules : Rules) (before after : Db) : Type 0 where
  kept :
      after.updates ≡ before.updates → before.next_seq ≤ after.next_seq → Effect rules before after
  updated :
      (test : Row → Bool) (change : Row → Row)
      → Update rules before after test change
      → Effect rules before after
  inserted : (key : Text) (r : Row) → Insert before after rules key r → Effect rules before after

module _ {rules : Rules} where
  pub Effect-seq :
      {before after : Db} → Effect rules before after → before.next_seq ≤ after.next_seq
  Effect-seq (kept same grows) = grows
  Effect-seq (updated test change u) = omega (arith, u.seq)
  Effect-seq (inserted key r u) = omega (arith, u.seq)

  -- An effect is about the rows and the sequence alone.
  pub Effect-same :
      {before after later : Db}
      → Effect rules before after
      → later.updates ≡ after.updates
      → later.next_seq ≡ after.next_seq
      → Effect rules before later
  Effect-same (kept same grows) e n = kept (e ∙ same) (omega (arith, grows))
  Effect-same (updated test change u) e n =
      updated test change
        (record { rows = e ∙ u.rows; seq = n ∙ u.seq; checked = u.checked; edges = u.edges })
  Effect-same (inserted key r u) e n = inserted key r (record {
    rows = e ∙ u.rows;
    seq = n ∙ u.seq;
    key_of = u.key_of;
    key_new = u.key_new;
    room = u.room;
    fresh = u.fresh;
    unclaimed = u.unclaimed;
    numbered = u.numbered;
    id_new = u.id_new;
    checked = u.checked;
  })

-- A transaction keeps the effect of its body, or rolls it back.
pub finish-cases :
    {A : Type 0} (commit : Commit) (before : Db) (r : Db × Result StoreError A)
    → ((finish commit before r).0 ≡ r.0) ⊎ ((finish commit before r).0 ≡ rolled_back before r.0)
unfolding finish
finish-cases answered before (after, ok a) = inl refl
finish-cases answered before (after, err e) = inr refl
finish-cases (refused f) before (after, ok a) = inr refl
finish-cases (refused f) before (after, err e) = inr refl
finish-cases (unconfirmed f) before (after, ok a) = inl refl
finish-cases (unconfirmed f) before (after, err e) = inr refl

pub finish-Effect :
    {rules : Rules} {A : Type 0} (commit : Commit) (before : Db) (r : Db × Result StoreError A)
    → Effect rules before r.0
    → Effect rules before (finish commit before r).0
finish-Effect {rules} commit before r u = elim (finish-cases commit before r) [
  | inl e ↦ rw e u
  | inr e ↦ rw e (kept refl (Effect-seq u))
]

pub update_rows-Effect :
    {rules : Rules} (where_ : List Row → Row → Bool) (change : Row → Row) (db : Db)
    → ((r : Row)
        → Memᴰ r db.updates
        → where_ db.updates r ≡ true
        → SameTask r (change r) × Edge rules r (change r))
    → Effect rules db (update_rows where_ change db).0
unfolding update_rows
update_rows-Effect where_ change db edges =
    elim (Bool-cases (all_pass (map change (filter (where_ db.updates) db.updates)))) [
      | inl pass ↦ rw pass (
          updated (where_ db.updates) change
            (record { rows = refl; seq = refl; checked = pass; edges = edges }))
      | inr fails ↦ rw fails (kept refl (omega arith))
    ]
