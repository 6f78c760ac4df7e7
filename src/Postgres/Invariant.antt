-- ===== src/Postgres/Invariant.antt =====
-- The invariant of the table: its keys, its numbering, its constraints, and its capacity.
use fx_quotes.Prelude.{
  ℕ, suc, ◌≤◌, ◌<◌, ◌≡◌, refl, sym, subst, Bool, true, false, List, [], ◌∷◌, ◌++◌, Option, arith,
  map, filter, All, All-append, All-map,
}
use fx_quotes.Text.{Text, text_eq}
use fx_quotes.Text.Laws.{text_eq_iff}
use fx_quotes.Postgres.Schema.{Row, Db, row_check}
use fx_quotes.Postgres.Tx.{replace, all_pass}
use fx_quotes.Postgres.Select.Members.{Distinct}
use fx_quotes.Postgres.Store.{active_count, existing, id_used, key_equal, nullif_empty}
use fx_quotes.Postgres.Steps.{Call, creates, Limits, step, run, empty_db}
use fx_quotes.Postgres.Effect.{Rules, SameTask, Update, Insert, Effect, kept, updated, inserted}
use fx_quotes.Postgres.Effect.Step.{rules_of, step-Effect}
use fx_quotes.Postgres.Evolution.{
  Moves, Pointwise, same_row, map-Moves, Distinct-Moves, active_count-Moves,
}

abbrev pub Pairs {ℓ} : {A : Type ℓ} → (A → A → Type 0) → List A → Type 0
Pairs R [] = Unit
Pairs R (x ∷ xs) = All (R x) xs × Pairs R xs

abbrev pub Earlier : Row → Row → Type 0
Earlier r s = r.request_seq < s.request_seq

abbrev pub OtherKey : Row → Row → Type 0
OtherKey r s = key_equal r.idempotency_key s.idempotency_key ≡ false

-- Ids and idempotency keys are unique, the numbers rise in the order of insertion and stay below
-- the sequence, every row passes the CHECK constraints, and no more rows are active than allowed.
pub record Inv (max_active : ℕ) (db : Db) : Type 0 where
  pub distinct : Distinct db.updates
  pub rising : Pairs Earlier db.updates
  pub below : All (λ r. r.request_seq < db.next_seq) db.updates
  pub keys : Pairs OtherKey db.updates
  pub checked : all_pass db.updates ≡ true
  pub bounded : active_count db.updates ≤ max_active

Pairs-append {ℓ} :
    {A : Type ℓ} (R : A → A → Type 0) (xs : List A) (y : A)
    → Pairs R xs
    → All (λ x. R x y) xs
    → Pairs R (xs ++ y ∷ [])
Pairs-append R [] y p h = (tt, tt)
Pairs-append R (x ∷ xs) y p h =
    (All-append (R x) xs (y ∷ []) p.0 (h.0, tt), Pairs-append R xs y p.1 h.1)

Distinct-append :
    (rows : List Row) (r : Row)
    → Distinct rows
    → id_used r.id rows ≡ false
    → Distinct (rows ++ r ∷ [])
Distinct-append [] r d h = (refl, tt)
Distinct-append (x ∷ xs) r d h =
    (id_used-append x xs d.0 (ground arith), Distinct-append xs r d.1 (ground arith))
  where
    id_used-append :
        (x : Row) (xs : List Row)
        → id_used x.id xs ≡ false
        → text_eq x.id r.id ≡ false
        → id_used x.id (xs ++ r ∷ []) ≡ false
    id_used-append x [] u e = ground (arith, text_eq_iff x.id r.id, text_eq_iff r.id x.id)
    id_used-append x (z ∷ zs) u e = ground (arith, id_used-append x zs)

all_pass-append :
    (rows : List Row) (r : Row)
    → all_pass rows ≡ true
    → row_check r ≡ true
    → all_pass (rows ++ r ∷ []) ≡ true
all_pass-append [] r h c = ground arith
all_pass-append (x ∷ xs) r h c = ground (arith, all_pass-append xs r)

active_count-append :
    (rows : List Row) (r : Row) → active_count (rows ++ r ∷ []) ≤ suc (active_count rows)
unfolding active_count
active_count-append [] r = ground arith
active_count-append (x ∷ xs) r = ground (arith, active_count-append xs r)

existing-none :
    (key : Text) (r : Row) (rows : List Row)
    → r.idempotency_key ≡ nullif_empty key
    → existing key rows ≡ []
    → All (λ x. OtherKey x r) rows
unfolding existing
existing-none key r [] k h = tt
existing-none key r (x ∷ xs) k h = ground (arith, existing-none key r xs)

all_pass-replace :
    (test : Row → Bool) (change : Row → Row) (rows : List Row)
    → all_pass rows ≡ true
    → all_pass (map change (filter test rows)) ≡ true
    → all_pass (map (replace test change) rows) ≡ true
all_pass-replace test change [] h c = refl
all_pass-replace test change (x ∷ xs) h c = ground (arith, all_pass-replace test change xs)

module _ (rules : Rules) where
  All-Moves :
      (P : Row → Type 0) (rs ss : List Row)
      → ((r s : Row) → SameTask r s → P r → P s)
      → Pointwise (Moves rules) rs ss
      → All P rs
      → All P ss
  All-Moves P [] [] keep h a = tt
  All-Moves P [] (s ∷ ss) keep h a = absurd h
  All-Moves P (r ∷ rs) [] keep h a = absurd h
  All-Moves P (r ∷ rs) (s ∷ ss) keep h a = (keep r s h.0.0 a.0, All-Moves P rs ss keep h.1 a.1)

  Pairs-Moves :
      (R : Row → Row → Type 0) (rs ss : List Row)
      → ((r r' s s' : Row) → SameTask r r' → SameTask s s' → R r s → R r' s')
      → Pointwise (Moves rules) rs ss
      → Pairs R rs
      → Pairs R ss
  Pairs-Moves R [] [] keep h p = tt
  Pairs-Moves R [] (s ∷ ss) keep h p = absurd h
  Pairs-Moves R (r ∷ rs) [] keep h p = absurd h
  Pairs-Moves R (r ∷ rs) (s ∷ ss) keep h p = (
    All-Moves (R s) rs ss (λ x y same q. keep s s x y (same_row s) same q) h.1
        (All-map (λ x q. keep r s x x h.0.0 (same_row x) q) rs p.0),
    Pairs-Moves R rs ss keep h.1 p.1,
  )

seq_moves : (r r' s s' : Row) → SameTask r r' → SameTask s s' → Earlier r s → Earlier r' s'
seq_moves r r' s s' p q h = omega (arith, p.same_seq, q.same_seq)

key_moves : (r r' s s' : Row) → SameTask r r' → SameTask s s' → OtherKey r s → OtherKey r' s'
key_moves r r' s s' p q h = rw (p.same_key, q.same_key) h

module _ {rules : Rules} {before after : Db} where
  Update-Inv :
      (test : Row → Bool) (change : Row → Row)
      → Update rules before after test change
      → Inv rules.max_active before
      → Inv rules.max_active after
  Update-Inv test change u v =
      let rows = map (replace test change) before.updates in
      let moves = map-Moves rules test change before.updates u.edges in
      record {
        distinct = rw u.rows (Distinct-Moves rules before.updates rows moves v.distinct);
        rising = rw u.rows (Pairs-Moves rules Earlier before.updates rows seq_moves moves v.rising);
        below =
            rw (u.rows, u.seq)
              (All-Moves rules (λ r. r.request_seq < before.next_seq) before.updates rows
                (λ r s same h. omega (arith, same.same_seq)) moves v.below);
        keys = rw u.rows (Pairs-Moves rules OtherKey before.updates rows key_moves moves v.keys);
        checked = rw u.rows (all_pass-replace test change before.updates v.checked u.checked);
        bounded =
            rw u.rows
              (omega (arith, active_count-Moves rules before.updates rows moves, v.bounded));
      }

  Insert-Inv :
      (key : Text) (r : Row)
      → Insert before after rules key r
      → Inv rules.max_active before
      → Inv rules.max_active after
  Insert-Inv key r u v = record {
    distinct = rw u.rows (Distinct-append before.updates r v.distinct u.id_new);
    rising = rw u.rows (
        Pairs-append Earlier before.updates r v.rising
          (All-map (λ x h. omega (arith, u.numbered)) before.updates v.below));
    below =
        rw (u.rows, u.seq)
          (All-append _ before.updates (r ∷ [])
            (All-map (λ x h. omega arith) before.updates v.below) (omega (arith, u.numbered), tt));
    keys = rw u.rows (
        Pairs-append OtherKey before.updates r v.keys
          (existing-none key r before.updates u.key_of u.key_new));
    checked = rw u.rows (all_pass-append before.updates r v.checked u.checked);
    bounded = rw u.rows (omega (arith, active_count-append before.updates r, u.room));
  }

  pub Effect-Inv :
      Effect rules before after → Inv rules.max_active before → Inv rules.max_active after
  Effect-Inv (kept same grows) v = record {
    distinct = rw same v.distinct;
    rising = rw same v.rising;
    below = rw same (All-map (λ x h. omega arith) before.updates v.below);
    keys = rw same v.keys;
    checked = rw same v.checked;
    bounded = rw same v.bounded;
  }
  Effect-Inv (updated test change u) v = Update-Inv test change u v
  Effect-Inv (inserted key r u) v = Insert-Inv key r u v

max_active-rules_of :
    (limits : Limits) (call : Call) → (rules_of limits call).max_active ≡ limits.max_active
max_active-rules_of limits (creates io command) = refl
max_active-rules_of limits _ = refl

module _ (numeric : Text → Option Text) (limits : Limits) where
  -- Every call of the store, whatever its environment and however it ends, keeps the invariant.
  pub step-Inv :
      (db : Db) (call : Call)
      → Inv limits.max_active db
      → Inv limits.max_active (step numeric limits db call)
  step-Inv db call v =
      let same = max_active-rules_of limits call in
      subst (λ m. Inv m (step numeric limits db call)) same
        (Effect-Inv (step-Effect numeric limits db call v.distinct)
          (subst (λ m. Inv m db) (sym same) v))

  pub run-Inv :
      (db : Db) (calls : List Call)
      → Inv limits.max_active db
      → Inv limits.max_active (run numeric limits db calls)
  unfolding run
  run-Inv db [] v = v
  run-Inv db (c ∷ cs) v = run-Inv (step numeric limits db c) cs (step-Inv db c v)

  -- Whatever calls are made of an empty store, in any order, with any faults: ids, numbers and
  -- idempotency keys stay unique, no row breaks a constraint, and no more than `max_active` rows are
  -- pending or processing.
  pub run-empty-Inv :
      (calls : List Call) → Inv limits.max_active (run numeric limits empty_db calls)
  unfolding active_count
  run-empty-Inv calls = run-Inv empty_db calls (record {
    distinct = tt;
    rising = tt;
    below = tt;
    keys = tt;
    checked = refl;
    bounded = omega arith;
  })
