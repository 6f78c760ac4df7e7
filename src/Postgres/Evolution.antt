-- ===== src/Postgres/Evolution.antt =====
-- The rows before and after a step, one by one.
use fx_quotes.Prelude.{
  ◌≤◌, ◌≡◌, refl, sym, ◌∙◌, ◌⊎◌, inl, inr, Bool, true, List, [], ◌∷◌, ◌++◌, arith, Bool-cases, Memᴰ,
  append-nil, map,
}
use fx_quotes.Text.{Text}
use fx_quotes.Postgres.Schema.{Row, Db, is_active}
use fx_quotes.Postgres.Tx.{replace}
use fx_quotes.Postgres.Select.Members.{Distinct}
use fx_quotes.Postgres.Store.{active_count, id_used}
use fx_quotes.Postgres.Effect.{
  Rules, SameTask, Edge, lease, release, succeed, give_up, Effect, kept, updated, inserted,
}

-- A row stays, or follows an edge of the diagram; it stays the same task.
abbrev pub Moves : Rules → Row → Row → Type 0
Moves rules r s = SameTask r s × ((s ≡ r) ⊎ Edge rules r s)

abbrev pub Pointwise : (Row → Row → Type 0) → List Row → List Row → Type 0
Pointwise R [] [] = Unit {0}
Pointwise R [] (s ∷ ss) = ⊥
Pointwise R (r ∷ rs) [] = ⊥
Pointwise R (r ∷ rs) (s ∷ ss) = R r s × Pointwise R rs ss

pub same_row : (r : Row) → SameTask r r
same_row r = record {
  same_id = refl;
  same_seq = refl;
  same_pair = refl;
  same_key = refl;
  same_created = refl;
}

module _ (rules : Rules) where
  pub map-Moves :
      (test : Row → Bool) (change : Row → Row) (rows : List Row)
      → ((r : Row) → Memᴰ r rows → test r ≡ true → SameTask r (change r) × Edge rules r (change r))
      → Pointwise (Moves rules) rows (map (replace test change) rows)
  map-Moves test change [] h = tt
  map-Moves test change (r ∷ rs) h =
      let rest = map-Moves test change rs (λ x m. h x (Memᴰ.tail m)) in
      elim (Bool-cases (test r)) [
        | inl hit ↦ let (same, edge) = h r (Memᴰ.head refl) hit in rw hit ((same, inr edge), rest)
        | inr miss ↦ rw miss ((same_row r, inl refl), rest)
      ]

  pub Pointwise-same : (rows : List Row) → Pointwise (Moves rules) rows rows
  Pointwise-same [] = tt
  Pointwise-same (r ∷ rs) = ((same_row r, inl refl), Pointwise-same rs)

  -- The rows after an effect are the rows before it, each moved, and at most one more.
  pub Effect-Moves :
      {before after : Db}
      → Effect rules before after
      → (rows : List Row) × (added : List Row) × Pointwise (Moves rules) before.updates rows
        × (after.updates ≡ rows ++ added)
  Effect-Moves {before} (kept same grows) =
      (before.updates, [], Pointwise-same before.updates, same ∙ sym (append-nil before.updates))
  Effect-Moves {before} (updated test change u) = (
    map (replace test change) before.updates,
    [],
    map-Moves test change before.updates u.edges,
    u.rows ∙ sym (append-nil _),
  )
  Effect-Moves {before} (inserted key r u) =
      (before.updates, r ∷ [], Pointwise-same before.updates, u.rows)

  pub id_used-Moves :
      (id : Text) (rs ss : List Row) → Pointwise (Moves rules) rs ss → id_used id ss ≡ id_used id rs
  id_used-Moves id [] [] h = refl
  id_used-Moves id [] (s ∷ ss) h = absurd h
  id_used-Moves id (r ∷ rs) [] h = absurd h
  id_used-Moves id (r ∷ rs) (s ∷ ss) h = rw (h.0.0.same_id, id_used-Moves id rs ss h.1)

  pub Distinct-Moves :
      (rs ss : List Row) → Pointwise (Moves rules) rs ss → Distinct rs → Distinct ss
  Distinct-Moves [] [] h d = tt
  Distinct-Moves [] (s ∷ ss) h d = absurd h
  Distinct-Moves (r ∷ rs) [] h d = absurd h
  Distinct-Moves (r ∷ rs) (s ∷ ss) h d =
      (rw (h.0.0.same_id, id_used-Moves r.id rs ss h.1) d.0, Distinct-Moves rs ss h.1 d.1)

  active-Moves :
      (r s : Row) → Moves rules r s → is_active s.status ≡ true → is_active r.status ≡ true
  active-Moves r s (same, inl e) a = rw e at a
  active-Moves r s (same, inr (lease p q n)) a = rw p refl
  active-Moves r s (same, inr (release p q n b)) a = rw p refl
  active-Moves r s (same, inr (succeed p q n m)) a = rw p refl
  active-Moves r s (same, inr (give_up p q n)) a = rw p refl

  pub active_count-Moves :
      (rs ss : List Row) → Pointwise (Moves rules) rs ss → active_count ss ≤ active_count rs
  unfolding active_count
  active_count-Moves [] [] h = omega arith
  active_count-Moves [] (s ∷ ss) h = absurd h
  active_count-Moves (r ∷ rs) [] h = absurd h
  active_count-Moves (r ∷ rs) (s ∷ ss) h =
      ground (arith, active_count-Moves rs ss h.1, active-Moves r s h.0)

  -- Where a row of the table has gone.
  pub In-Moves :
      (rs ss : List Row) {r : Row}
      → Pointwise (Moves rules) rs ss
      → Memᴰ r rs
      → (s : Row) × Memᴰ s ss × Moves rules r s
  In-Moves [] ss h m = elim m [ ]
  In-Moves (x ∷ rs) [] h m = absurd h
  In-Moves (x ∷ rs) (s ∷ ss) h (Memᴰ.head e) = (s, Memᴰ.head refl, rw e h.0)
  In-Moves (x ∷ rs) (s ∷ ss) h (Memᴰ.tail m) =
      let (t, n, moved) = In-Moves rs ss h.1 m in (t, Memᴰ.tail n, moved)

  -- And where a row of the table has come from.
  pub Moves-In :
      (rs ss : List Row) {s : Row}
      → Pointwise (Moves rules) rs ss
      → Memᴰ s ss
      → (r : Row) × Memᴰ r rs × Moves rules r s
  Moves-In rs [] h m = elim m [ ]
  Moves-In [] (x ∷ ss) h m = absurd h
  Moves-In (r ∷ rs) (x ∷ ss) h (Memᴰ.head e) = (r, Memᴰ.head refl, rw e h.0)
  Moves-In (r ∷ rs) (x ∷ ss) h (Memᴰ.tail m) =
      let (t, n, moved) = Moves-In rs ss h.1 m in (t, Memᴰ.tail n, moved)
