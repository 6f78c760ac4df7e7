-- ===== src/Postgres/ReadBack.antt =====
-- A read of the update that an admission has answered with.
use fx_quotes.Prelude.{
  ℕ, ◌≡◌, refl, sym, ap, subst, inl, inr, Bool, not, ◌||◌, List, [], ◌∷◌, Option, none, some,
  Result, ok, err, Bool-cases, Result-cases, if_both, Memᴰ, In-filter, In-append_right, ltb,
}
use fx_quotes.Text.{Text, text_eq, byte_length}
use fx_quotes.Text.Laws.{text_eq_iff}
use fx_quotes.Entity.Pair.{Pair, parse_pair, print}
use fx_quotes.Entity.Update.{QuoteUpdate}
use fx_quotes.Usecase.Commands.{
  Fault, StoreError, CreateOrGetCommand, max_idempotency_key_bytes, invalid_idempotency_key,
  idempotency_conflict,
}
use fx_quotes.Postgres.Schema.{Row, Db, row_check}
use fx_quotes.Postgres.Row.{scan_update, scan_rate}
use fx_quotes.Postgres.Tx.{
  Tx, Commit, answered, refused, unconfirmed, bind_result, trip, lift, finish,
}
use fx_quotes.Postgres.Select.Members.{Distinct, id_used-In}
use fx_quotes.Postgres.Queue.Completion.{find_row}
use fx_quotes.Postgres.Store.{
  CreateIo, existing, active_count, id_used, key_equal, nullif_empty, new_row, insert_row,
  admit_new, admit_existing, admit, same_pair, create_body, create_or_get, or_invalid_pair,
  get_update,
}
use fx_quotes.Postgres.Invariant.{Inv}

-- What holds of the database and of the answer, where there is one.
abbrev pub Yields : {A : Type 0} → (Db → A → Type 0) → Db × Result StoreError A → Type 0
Yields P (db, ok a) = P db a
Yields P (db, err e) = Unit

bind-Yields :
    {A B : Type 0} (Q : Db → A → Type 0) (P : Db → B → Type 0) (out : Db × Result StoreError A)
    (f : A → Tx B)
    → Yields Q out
    → ((a : A) (db : Db) → Q db a → Yields P (f a db))
    → Yields P (bind_result out f)
bind-Yields Q P (db, ok a) f q rest = rest a db q
bind-Yields Q P (db, err e) f q rest = tt

trip-Yields :
    {B : Type 0} (P : Db → B → Type 0) (t : Option Fault) (k : Tx B) (db : Db)
    → Yields P (k db)
    → Yields P (bind_result (trip t db) (λ _. k))
trip-Yields P none k db rest = rest
trip-Yields P (some f) k db rest = tt

finish-Yields :
    {A : Type 0} (P : Db → A → Type 0) (commit : Commit) (before : Db)
    (out : Db × Result StoreError A)
    → Yields P out
    → Yields P (finish commit before out)
unfolding finish
finish-Yields P commit before (after, err e) h = tt
finish-Yields P answered before (after, ok a) h = h
finish-Yields P (refused f) before (after, ok a) h = tt
finish-Yields P (unconfirmed f) before (after, ok a) h = tt

-- The answer is a row of the table.
abbrev IsRow : Db → Row × Bool → Type 0
IsRow db (row, created) = Memᴰ row db.updates

-- The answer is a row of the table, decoded.
abbrev pub IsShown : Db → QuoteUpdate × Bool → Type 0
IsShown db (update, created) = (r : Row) × Memᴰ r db.updates × (scan_update r ≡ ok update)

insert_row-IsRow : (r : Row) (db : Db) → Yields IsRow (insert_row r db)
unfolding insert_row
insert_row-IsRow r db =
    if_both (Yields IsRow) (id_used r.id db.updates || not (row_check r)) _ _ tt
      (In-append_right db.updates (r ∷ []) (Memᴰ.head refl))

module _ (io : CreateIo) (pair key : Text) (max_active : ℕ) where
  admit-IsRow : (db : Db) → Yields IsRow (admit io pair key max_active db)
  unfolding admit admit_existing admit_new existing
  admit-IsRow db = found (existing key db.updates) refl
    where
      found :
          (rows : List Row)
          → existing key db.updates ≡ rows
          → Yields IsRow (admit_existing io pair key max_active rows db)
      found [] none_yet =
          if_both (Yields IsRow) (ltb (active_count db.updates) max_active) _ _
            (insert_row-IsRow (new_row io pair key db.next_seq) db) tt
      found (r ∷ rows) e =
          (In-filter (λ x. key_equal x.idempotency_key (nullif_empty key)) db.updates
            (rw e (Memᴰ.head refl))).0

create_body-IsShown :
    (max_active : ℕ) (io : CreateIo) (pair : Pair) (key : Text) (db : Db)
    → Yields IsShown (create_body max_active io pair key db)
unfolding create_body
create_body-IsShown max_active io pair key db = trip-Yields IsShown io.begin _ db (
    trip-Yields IsShown io.lock _ db (
      trip-Yields IsShown io.random _ db (
        trip-Yields IsShown io.query _ db (
          bind-Yields IsRow IsShown (admit io (print pair) key max_active db) _
            (admit-IsRow io (print pair) key max_active db)
            (λ (row, created) d m.
              bind-Yields (λ d' u. Memᴰ row d'.updates × (scan_update row ≡ ok u)) IsShown
                (d, scan_update row) _ (scanned row d (scan_update row) refl m)
                (λ u d' h.
                  if_both (λ r. Yields IsShown (lift r d')) (same_pair u.pair pair)
                    (ok (u, created)) (err idempotency_conflict) (row, h.0, h.1) tt))))))
  where
    scanned :
        (row : Row) (d : Db) (o : Result StoreError QuoteUpdate)
        → scan_update row ≡ o
        → Memᴰ row d.updates
        → Yields (λ d' u. Memᴰ row d'.updates × (scan_update row ≡ ok u)) (d, o)
    scanned row d (ok u) e m = (m, e)
    scanned row d (err f) e m = tt

pub create_or_get-IsShown :
    (max_active : ℕ) (io : CreateIo) (command : CreateOrGetCommand) (db : Db)
    → Yields IsShown (create_or_get max_active io command db)
unfolding create_or_get
create_or_get-IsShown max_active io command db =
    if_both (λ (m : Tx (QuoteUpdate × Bool)). Yields IsShown (m db))
      (ltb max_idempotency_key_bytes (byte_length command.idempotency_key))
      (lift (err invalid_idempotency_key)) _ tt
      (bind-Yields (λ d p. Unit {0}) IsShown (db, or_invalid_pair (parse_pair (print command.pair)))
        _ (any (or_invalid_pair (parse_pair (print command.pair))))
        (λ p d h. trip-Yields IsShown io.gate _ d (
          finish-Yields IsShown io.commit d _
            (create_body-IsShown max_active io p command.idempotency_key d))))
  where
    any : (o : Result StoreError Pair) → Yields (λ d p. Unit {0}) (db, o)
    any (ok p) = tt
    any (err e) = tt

abbrev id_or : Text → Result StoreError QuoteUpdate → Text
id_or id (ok u) = u.id
id_or id (err e) = id

-- A decoded row keeps its id.
scan_update-id : (r : Row) (u : QuoteUpdate) → scan_update r ≡ ok u → u.id ≡ r.id
unfolding scan_update
scan_update-id r u h = elim (Result-cases (parse_pair r.pair)) [
  | inl (p, parsed) ↦ elim (Result-cases (scan_rate p r r.rate)) [
    | inl (q, rated) ↦ sym (ap (id_or r.id) (rw (parsed, rated) at h))
    | inr (e, bad) ↦ cc (rw (parsed, bad) at h)
  ]
  | inr (e, bad) ↦ cc (rw bad at h)
]

find_row-Distinct :
    (rows : List Row) (r : Row) → Distinct rows → Memᴰ r rows → find_row r.id rows ≡ some r
unfolding find_row
find_row-Distinct [] r d m = elim m [ ]
find_row-Distinct (x ∷ xs) r d (Memᴰ.head e) =
    rw ((text_eq_iff x.id r.id).1 (ap (λ (v : Row). v.id) (sym e))) (ap some (sym e))
find_row-Distinct (x ∷ xs) r d (Memᴰ.tail m) = elim (Bool-cases (text_eq x.id r.id)) [
  | inl hit ↦ absurd (id_used-In x.id xs d.0 m (sym ((text_eq_iff x.id r.id).0 hit)))
  | inr miss ↦ rw miss (find_row-Distinct xs r d.1 m)
]

-- What `CreateOrGet` answers, new or not, is what a read of its id gives then: a read of the
-- update from the same state of the database, where the invariant holds, the id is in its
-- canonical form and the driver does not fail, gives the same update.
pub create_or_get-get_update :
    (max_active : ℕ) (io : CreateIo) (command : CreateOrGetCommand) (scan_uuid : Text → Option Text)
    (db db' : Db) (update : QuoteUpdate) (created : Bool)
    → create_or_get max_active io command db ≡ (db', ok (update, created))
    → Inv max_active db'
    → scan_uuid update.id ≡ some update.id
    → get_update scan_uuid none update.id db' ≡ (db', ok update)
unfolding get_update
create_or_get-get_update max_active io command scan_uuid db db' update created h v canonical =
    let (r, m, shown) = subst (Yields IsShown) h (create_or_get-IsShown max_active io command db) in
    let same = scan_update-id r update shown in
    let found : find_row update.id db'.updates ≡ some r =
      rw same (find_row-Distinct db'.updates r v.distinct m) in
    rw (canonical, found, shown)
