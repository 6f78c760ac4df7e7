-- ===== src/Postgres/Latest/Steps.antt =====
-- The table of latest quotes over any history.
use fx_quotes.Prelude.{
  ◌≡◌, refl, sym, ap, ◌∙◌, inl, inr, false, List, [], ◌∷◌, some, Result, ok, arith, Memᴰ, map,
  Bool-cases, In-map, map-In, In-append_left, append-In, In-cases,
}
use fx_quotes.Text.{Text}
use fx_quotes.Entity.Update.{completed}
use fx_quotes.Usecase.Commands.{StoreError, CompleteCommand}
use fx_quotes.Postgres.Schema.{Row, LatestRow, Db}
use fx_quotes.Postgres.Tx.{replace}
use fx_quotes.Postgres.Select.Members.{Distinct, Distinct-eq}
use fx_quotes.Postgres.Queue.{Clock}
use fx_quotes.Postgres.Queue.Completion.{completed_row, owned_pair, latest_of}
use fx_quotes.Postgres.Store.{find_latest}
use fx_quotes.Postgres.Effect.{
  Rules, lease, release, succeed, give_up, Effect, kept, updated, inserted,
}
use fx_quotes.Postgres.Effect.Calls.{owned_pair-processing}
use fx_quotes.Postgres.Evolution.{Moves, map-Moves, In-Moves, Moves-In}
use fx_quotes.Postgres.Latest.{
  Completes, UpTo, IsLatest, upsert_self, upsert_grows, upsert-In, UpTo-trans,
}
use fx_quotes.Postgres.Latest.Completion.{Committed, owned_pair-id}

ok-injective : {l m : LatestRow} → ◌≡◌ {A = Result StoreError LatestRow} (ok l) (ok m) → l ≡ m
ok-injective e = ground arith

-- Two tables with the same completed rows have the same latest quotes.
pub IsLatest-same :
    {rows later : List Row} {latest : List LatestRow}
    → ((r : Row) → r.status ≡ completed → Memᴰ r rows → Memᴰ r later)
    → ((r : Row) → r.status ≡ completed → Memᴰ r later → Memᴰ r rows)
    → IsLatest rows latest
    → IsLatest later latest
IsLatest-same there back v = record {
  from_rows = λ l m. let (r, n, c) = v.from_rows l m in (r, there r c.0 n, c);
  covers = λ r l m c. v.covers r l (back r c.0 m) c;
}

-- Of the moves only `succeed` leads to a completed row, and none leads away from one.
completed_stays : (rules : Rules) (r s : Row) → Moves rules r s → r.status ≡ completed → s ≡ r
completed_stays rules r s (same, inl e) f = e
completed_stays rules r s (same, inr (lease p q n)) f = cc (p, f)
completed_stays rules r s (same, inr (release p q n b)) f = cc (p, f)
completed_stays rules r s (same, inr (succeed p q n m)) f = cc (p, f)
completed_stays rules r s (same, inr (give_up p q n)) f = cc (p, f)

completed_was :
    (rules : Rules) (r s : Row)
    → rules.may_succeed ≡ false
    → Moves rules r s
    → s.status ≡ completed
    → s ≡ r
completed_was rules r s barred (same, inl e) f = e
completed_was rules r s barred (same, inr (lease p q n)) f = cc (q, f)
completed_was rules r s barred (same, inr (release p q n b)) f = cc (q, f)
completed_was rules r s barred (same, inr (succeed p q n m)) f = cc (barred, m)
completed_was rules r s barred (same, inr (give_up p q n)) f = cc (q, f)

pub Effect-completed :
    {rules : Rules} {before after : Db}
    → rules.may_succeed ≡ false
    → Effect rules before after
    → ((r : Row) → r.status ≡ completed → Memᴰ r before.updates → Memᴰ r after.updates)
      × ((r : Row) → r.status ≡ completed → Memᴰ r after.updates → Memᴰ r before.updates)
Effect-completed barred (kept same grows) = ((λ r c m. rw same m), λ r c m. rw same at m)
Effect-completed {rules} {before} barred (updated test change u) =
    let rows = map (replace test change) before.updates in
    let moves = map-Moves rules test change before.updates u.edges in
    (
      (λ r c m.
          let (s, n, moved) = In-Moves rules before.updates rows moves m in
          rw (u.rows, ← completed_stays rules r s moved c) n),
      λ r c m.
          let (s, n, moved) = Moves-In rules before.updates rows moves (rw u.rows at m) in
          rw (completed_was rules s r barred moved c) n,
    )
Effect-completed {before = before} barred (inserted key r u) = (
  (λ x c m. rw u.rows (In-append_left before.updates (r ∷ []) m)),
  λ x c m. elim (append-In before.updates (r ∷ []) (rw u.rows at m)) [
    | inl k ↦ k
    | inr k ↦ elim (In-cases k) [
      | inl e ↦ cc (ap (λ (z : Row). z.status) e, c, u.fresh)
      | inr none_left ↦ elim none_left [ ]
    ]
  ],
)

-- A completed row is not processing, so that a completion passes it over.
completed-passed :
    (clock : Clock) (command : CompleteCommand) (rate : Text) (r : Row)
    → r.status ≡ completed
    → replace (owned_pair command) (completed_row clock command rate) r ≡ r
completed-passed clock command rate r c = elim (Bool-cases (owned_pair command r)) [
  | inl hit ↦ cc (c, owned_pair-processing command r hit)
  | inr miss ↦ rw miss
]

-- A committed completion: the new entry is in the table, and every older one is still covered.
module _ (clock : Clock) (command : CompleteCommand) {before after : Db} where
  Committed-from_rows :
      Committed clock command before after
      → IsLatest before.updates before.latest
      → (l : LatestRow) → Memᴰ l after.latest
      → (r : Row) × Memᴰ r after.updates × Completes r l
  unfolding completed_row
  Committed-from_rows u v l m =
      let move = replace (owned_pair command) (completed_row clock command u.rate) in
      elim (upsert-In u.entry before.latest (rw u.written at m)) [
        | inl e ↦ (
          completed_row clock command u.rate u.row,
          rw u.updates (rw u.held at (In-map move before.updates u.listed)),
          (refl, rw e u.stands_for),
        )
        | inr k ↦
            let (r, n, c) = v.from_rows l k in
            (
              r,
              rw u.updates (
                  rw (completed-passed clock command u.rate r c.0) at
                    (In-map move before.updates n)),
              c,
            )
      ]

  Committed-covers :
      Distinct before.updates
      → Committed clock command before after
      → IsLatest before.updates before.latest
      → (r : Row) (l : LatestRow) → Memᴰ r after.updates
      → Completes r l
      → (m : LatestRow) × (find_latest l.pair after.latest ≡ some m) × UpTo l m
  Committed-covers d u v r l m c =
      let change = completed_row clock command u.rate in
      let (r0, n, e) =
        map-In (replace (owned_pair command) change) before.updates (rw u.updates at m) in
      elim (Bool-cases (owned_pair command r0)) [
        | inl hit ↦
            let same : r0 ≡ u.row =
              Distinct-eq before.updates d n u.listed
                (owned_pair-id command r0 hit ∙ sym (owned_pair-id command u.row u.held)) in
            let moved : r ≡ change u.row = (rw hit at e) ∙ ap change same in
            let entry : l ≡ u.entry = ok-injective (sym c.1 ∙ ap latest_of moved ∙ u.stands_for) in
            rw (u.written, entry) (upsert_self u.entry before.latest)
        | inr miss ↦
            let moved : r ≡ r0 = rw miss at e in
            let (x, found, up) =
              v.covers r0 l n
                (ap (λ (z : Row). z.status) (sym moved) ∙ c.0, ap latest_of (sym moved) ∙ c.1) in
            let (y, grown, above) = upsert_grows u.entry l.pair before.latest x found in
            (y, rw u.written grown, UpTo-trans l x y up above)
      ]

  pub Committed-IsLatest :
      Distinct before.updates
      → Committed clock command before after
      → IsLatest before.updates before.latest
      → IsLatest after.updates after.latest
  Committed-IsLatest d u v = record {
    from_rows = Committed-from_rows u v;
    covers = Committed-covers d u v;
  }
