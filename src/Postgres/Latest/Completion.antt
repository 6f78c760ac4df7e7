-- ===== src/Postgres/Latest/Completion.antt =====
-- What a completion does to the two tables: nothing, or the update of one row and of the latest
-- quote of its pair together.
use fx_quotes.Prelude.{
  ◌≡◌, ◌≢◌, refl, sym, ap, ◌∙◌, ◌⊎◌, inl, inr, Bool, true, List, [], ◌∷◌, Option, none, some,
  Result, ok, err, arith, Memᴰ, map, filter, Bool-cases, In-filter, In-map, map-In,
}
use fx_quotes.Text.{Text, text_eq}
use fx_quotes.Text.Laws.{text_eq_iff}
use fx_quotes.Entity.Update.{QuoteUpdate}
use fx_quotes.Usecase.Commands.{Fault, StoreError, lost_ownership, CompleteCommand}
use fx_quotes.Postgres.Schema.{Row, LatestRow, Db}
use fx_quotes.Postgres.Row.{scan_update}
use fx_quotes.Postgres.Tx.{
  Tx, Commit, answered, refused, unconfirmed, rolled_back, finish, bind_result, trip, update_rows,
  replace, all_pass,
}
use fx_quotes.Postgres.Select.Members.{Distinct, Distinct-eq}
use fx_quotes.Postgres.Effect.{Rules}
use fx_quotes.Postgres.Effect.Calls.{completed_row-Edge, owned_pair-processing}
use fx_quotes.Postgres.Evolution.{map-Moves, Distinct-Moves}
use fx_quotes.Postgres.Queue.{Clock, first_row, owned}
use fx_quotes.Postgres.Queue.Completion.{
  CompleteIo, or_violated, completed_row, owned_pair, find_row, latest_of, upsert, insert_latest,
  upsert_row, advance_latest, after_update, complete_body, complete,
}

-- A property of the database after a sequence that succeeds.
trip-success {ℓ} :
    {B : Type 0} (P : Db → Type ℓ) (t : Option Fault) (k : Tx B) (db : Db) {b : B}
    → ((k db).1 ≡ ok b → P (k db).0)
    → (bind_result (trip t db) (λ _. k)).1 ≡ ok b
    → P (bind_result (trip t db) (λ _. k)).0
trip-success P none k db keep h = keep h
trip-success P (some f) k db keep h = cc h

bind_result-success {ℓ} :
    {A B : Type 0} (P : Db → Type ℓ) (r : Db × Result StoreError A) (f : A → Tx B) {b : B}
    → ((a : A) → r.1 ≡ ok a → (f a r.0).1 ≡ ok b → P (f a r.0).0)
    → (bind_result r f).1 ≡ ok b
    → P (bind_result r f).0
bind_result-success P (db, ok a) f keep h = keep a refl h
bind_result-success P (db, err e) f keep h = cc h

or_violated-ok : {A : Type 0} (o : Option A) {a : A} → or_violated o ≡ ok a → o ≡ some a
or_violated-ok none h = cc h
or_violated-ok (some x) h = ground arith

-- The entry goes in, and the rows stay.
pub record Advanced (before : Db) (id : Text) (after : Db) : Type 0 where
  pub row : Row
  pub entry : LatestRow
  pub found : find_row id before.updates ≡ some row
  pub stands_for : latest_of row ≡ ok entry
  pub written : after.latest ≡ upsert entry before.latest
  pub rows : after.updates ≡ before.updates

insert_latest-ok :
    (r : Result StoreError LatestRow) (db : Db)
    → (insert_latest r db).1 ≡ ok tt
    → (l : LatestRow) × (r ≡ ok l)
      × ((insert_latest r db).0.latest ≡ upsert l db.latest)
      × ((insert_latest r db).0.updates ≡ db.updates)
insert_latest-ok (ok l) db h = (l, refl, refl, refl)
insert_latest-ok (err e) db h = cc h

upsert_row-ok :
    (id : Text) (db : Db)
    → (find_row id db.updates ≡ none → ⊥)
    → (o : Option Row) → find_row id db.updates ≡ o
    → (upsert_row o db).1 ≡ ok tt
    → Advanced db id (upsert_row o db).0
upsert_row-ok id db present none e h = absurd (present e)
upsert_row-ok id db present (some r) e h =
    let (l, stands, written, rows) = insert_latest-ok (latest_of r) db h in
    record { row = r; entry = l; found = e; stands_for = stands; written = written; rows = rows }

after_update-ok :
    (io : CompleteIo) (command : CompleteCommand) (rows : List Row) (db : Db) {u : QuoteUpdate}
    → ((s : Row)
        → first_row lost_ownership rows ≡ ok s
        → find_row command.update_id db.updates ≢ none)
    → (after_update io command rows db).1 ≡ ok u
    → Advanced db command.update_id (after_update io command rows db).0
unfolding after_update advance_latest
after_update-ok io command rows db present =
    let id = command.update_id in
    let P = Advanced db id in
    bind_result-success P (db, first_row lost_ownership rows) _
      λ s found.
        bind_result-success P (db, scan_update s) _
          λ update scanned. trip-success P io.latest _ db (
            bind_result-success P (upsert_row (find_row id db.updates) db) _ λ done advanced last.
              upsert_row-ok id db (present s found) (find_row id db.updates) refl advanced)

after_update-first :
    (io : CompleteIo) (command : CompleteCommand) (rows : List Row) (db : Db) {u : QuoteUpdate}
    → (after_update io command rows db).1 ≡ ok u
    → (s : Row) × (first_row lost_ownership rows ≡ ok s)
unfolding after_update
after_update-first io command [] db h = cc h
after_update-first io command (r ∷ rs) db h = (r, refl)

-- `update_rows` where it succeeds.
pub record Wrote (test : Row → Bool) (change : Row → Row) (before after : Db) (rows : List Row)
    : Type 0 where
  pub updates : after.updates ≡ map (replace test change) before.updates
  pub latest : after.latest ≡ before.latest
  pub returned : rows ≡ map change (filter test before.updates)

pub update_rows-ok :
    (test : Row → Bool) (change : Row → Row) (db : Db) {rows : List Row}
    → (update_rows (λ _. test) change db).1 ≡ ok rows
    → Wrote test change db (update_rows (λ _. test) change db).0 rows
unfolding update_rows
update_rows-ok test change db h =
    elim (Bool-cases (all_pass (map change (filter test db.updates)))) [
      | inl pass ↦ rw pass (record { updates = refl; latest = refl; returned = ground arith })
      | inr fails ↦ cc (rw fails at h)
    ]

first_row-In : (rows : List Row) {s : Row} → first_row lost_ownership rows ≡ ok s → Memᴰ s rows
first_row-In [] h = cc h
first_row-In (r ∷ rs) h = Memᴰ.head (ground arith)

find_row-present :
    (id : Text) (rows : List Row) {s : Row} → Memᴰ s rows → s.id ≡ id → find_row id rows ≢ none
unfolding find_row
find_row-present id [] m e n = elim m [ ]
find_row-present id (r ∷ rs) (Memᴰ.head q) e n =
    let same = (text_eq_iff r.id id).1 (ap (λ (z : Row). z.id) (sym q) ∙ e) in ground arith
find_row-present id (r ∷ rs) (Memᴰ.tail m) e n = elim (Bool-cases (text_eq r.id id)) [
  | inl hit ↦ ground arith
  | inr miss ↦ find_row-present id rs m e (rw miss at n)
]

-- A returned row stands in the table.
returned-In :
    {test : Row → Bool} {change : Row → Row} {before after : Db} {rows : List Row}
    → Wrote test change before after rows
    → {s : Row} → Memᴰ s rows
    → (r : Row) × Memᴰ r before.updates × (test r ≡ true) × (s ≡ change r) × Memᴰ s after.updates
returned-In {test} {change} {before} w {s} m =
    let (r, k, e) = map-In change (filter test before.updates) (rw w.returned at m) in
    let (n, hit) = In-filter test before.updates k in
    (r, n, hit, e, rw (w.updates, e) (rw hit at (In-map (replace test change) before.updates n)))

find_row-In :
    (id : Text) (rows : List Row) {s : Row} → find_row id rows ≡ some s → Memᴰ s rows × (s.id ≡ id)
unfolding find_row
find_row-In id [] h = cc h
find_row-In id (r ∷ rs) {s} h = elim (Bool-cases (text_eq r.id id)) [
  | inl hit ↦
      let e : r ≡ s = ground arith in
      (Memᴰ.head (sym e), ap (λ (z : Row). z.id) (sym e) ∙ (text_eq_iff r.id id).0 hit)
  | inr miss ↦ let (m, e) = find_row-In id rs (rw miss at h) in (Memᴰ.tail m, e)
]

pub owned_pair-id :
    (command : CompleteCommand) (r : Row) → owned_pair command r ≡ true → r.id ≡ command.update_id
unfolding owned_pair owned
owned_pair-id command r h = ground (arith, text_eq_iff r.id command.update_id)

pub completed_row-id :
    (clock : Clock) (command : CompleteCommand) (rate : Text) (r : Row)
    → (completed_row clock command rate r).id ≡ r.id
unfolding completed_row
completed_row-id clock command rate r = refl

-- A completion that was committed: one owned row of the pair is completed, and its entry has gone
-- into the table of latest quotes.
pub record Committed (clock : Clock) (command : CompleteCommand) (before after : Db) : Type 0 where
  pub rate : Text
  pub row : Row
  pub entry : LatestRow
  pub listed : Memᴰ row before.updates
  pub held : owned_pair command row ≡ true
  pub stands_for : latest_of (completed_row clock command rate row) ≡ ok entry
  pub written : after.latest ≡ upsert entry before.latest
  pub updates :
      after.updates
      ≡ map (replace (owned_pair command) (completed_row clock command rate)) before.updates

-- What a commit does to the database, and that it keeps only a success.
pub finish-outcome :
    {A : Type 0} (commit : Commit) (before : Db) (r : Db × Result StoreError A)
    → ((finish commit before r).0 ≡ rolled_back before r.0)
      ⊎ (((finish commit before r).0 ≡ r.0) × ((a : A) × (r.1 ≡ ok a)))
unfolding finish
finish-outcome answered before (after, ok a) = inr (refl, (a, refl))
finish-outcome answered before (after, err e) = inl refl
finish-outcome (refused f) before (after, ok a) = inl refl
finish-outcome (refused f) before (after, err e) = inl refl
finish-outcome (unconfirmed f) before (after, ok a) = inr (refl, (a, refl))
finish-outcome (unconfirmed f) before (after, err e) = inl refl

abbrev completing : Rules
completing = record { may_succeed = true; retry_below = 0; max_active = 0 }

module _ (clock : Clock) (command : CompleteCommand) (before : Db) where
  completed-Committed :
      (rate : Text) {mid after : Db} {rows : List Row}
      → Distinct mid.updates
      → Wrote (owned_pair command) (completed_row clock command rate) before mid rows
      → Advanced mid command.update_id after
      → {s : Row} → Memᴰ s rows
      → Committed clock command before after
  completed-Committed rate {mid} d w a {s} m =
      let (r, n, hit, e, k) = returned-In w m in
      let (listed, id) = find_row-In command.update_id mid.updates a.found in
      let same : s ≡ a.row = Distinct-eq mid.updates d k listed (
        ap (λ (z : Row). z.id) e
        ∙ completed_row-id clock command rate r
        ∙ owned_pair-id command r hit
        ∙ sym id) in
      record {
        rate = rate;
        row = r;
        entry = a.entry;
        listed = n;
        held = hit;
        stands_for = rw (← e, same) a.stands_for;
        written = a.written ∙ ap (upsert a.entry) w.latest;
        updates = a.rows ∙ w.updates;
      }

  updated-Distinct :
      (rate : Text)
      → Distinct before.updates
      → Distinct
          (map (replace (owned_pair command) (completed_row clock command rate)) before.updates)
  updated-Distinct rate d =
      let change = completed_row clock command rate in
      Distinct-Moves completing before.updates _
        (map-Moves completing (owned_pair command) change before.updates
          λ r m h. completed_row-Edge clock command rate r refl (owned_pair-processing command r h))
        d

  after_update-Committed :
      (rate : Text) (io : CompleteIo) (rows : List Row) (mid : Db) {u : QuoteUpdate}
      → Distinct before.updates
      → Wrote (owned_pair command) (completed_row clock command rate) before mid rows
      → (after_update io command rows mid).1 ≡ ok u
      → Committed clock command before (after_update io command rows mid).0
  after_update-Committed rate io rows mid d w h =
      let (s, found) = after_update-first io command rows mid h in
      completed-Committed rate (rw w.updates (updated-Distinct rate d)) w
        (after_update-ok io command rows mid (λ x first. present x first) h)
        (first_row-In rows found)
    where
      present :
          (x : Row)
          → first_row lost_ownership rows ≡ ok x
          → find_row command.update_id mid.updates ≢ none
      present x first =
          let (r, n, hit, e, k) = returned-In w (first_row-In rows first) in
          find_row-present command.update_id mid.updates k (
            ap (λ (z : Row). z.id) e
            ∙ completed_row-id clock command rate r
            ∙ owned_pair-id command r hit)

  complete_body-Committed :
      (numeric : Text → Option Text) (io : CompleteIo) {u : QuoteUpdate}
      → Distinct before.updates
      → (complete_body numeric io clock command before).1 ≡ ok u
      → Committed clock command before (complete_body numeric io clock command before).0
  unfolding complete_body
  complete_body-Committed numeric io d =
      let P = Committed clock command before in
      trip-success P io.begin _ before (
        trip-success P io.update _ before (
          bind_result-success P (before, or_violated (numeric command.quote.rate.decimal)) _
            λ rate cast.
              let out =
                update_rows (λ _. owned_pair command) (completed_row clock command rate) before in
              bind_result-success P out _ λ rows wrote last.
                after_update-Committed rate io rows out.0 d
                  (update_rows-ok (owned_pair command) (completed_row clock command rate) before
                    wrote)
                  last))

  -- A completion commits both tables, or leaves both as they were.
  pub complete-Committed :
      (numeric : Text → Option Text) (io : CompleteIo)
      → Distinct before.updates
      → let after = (complete numeric io clock command before).0 in
        ((after.updates ≡ before.updates) × (after.latest ≡ before.latest))
        ⊎ Committed clock command before after
  unfolding complete
  complete-Committed numeric io d =
      let body = complete_body numeric io clock command before in
      elim (finish-outcome io.commit before body) [
        | inl back ↦ inl (ap (λ (x : Db). x.updates) back, ap (λ (x : Db). x.latest) back)
        | inr (same, (u, success)) ↦ inr (rw same (complete_body-Committed numeric io d success))
      ]
