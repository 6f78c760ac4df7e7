-- ===== src/Postgres/Tx.antt =====
-- Transactions: actions that change the database and may fail, and their commit.
use fx_quotes.Prelude.{
  Bool, true, List, [], ◌∷◌, Result, ok, err, Option, none, some, map, filter, if◌then◌else◌, ◌&&◌,
}
use fx_quotes.Usecase.Commands.{Fault, StoreError, database, constraint_violated}
use fx_quotes.Postgres.Schema.{Row, Db, row_check}

abbrev pub Tx : Type 0 → Type 0
Tx A = Db → Db × Result StoreError A

abbrev pub bind_result :
    {A B : Type 0} → Db × Result StoreError A → (A → Tx B) → Db × Result StoreError B
bind_result (db, ok a) f = f a db
bind_result (db, err e) f = (db, err e)

infixl 5 ◌>>=◌ ◌>>◌
abbrev pub ◌>>=◌ : {A B : Type 0} → Tx A → (A → Tx B) → Tx B
◌>>=◌ m f db = bind_result (m db) f

abbrev pub ◌>>◌ : {B : Type 0} → Tx (Unit {0}) → Tx B → Tx B
m >> k = m >>= λ _. k

abbrev pub lift : {A : Type 0} → Result StoreError A → Tx A
lift r db = (db, r)

-- A call of the driver that fails if the environment says so.
abbrev pub trip : Option Fault → Tx (Unit {0})
trip none db = (db, ok tt)
trip (some f) db = (db, err (database f))

-- How a commit ends: with an answer, without effect, or with an effect whose answer is lost.
pub data Commit : Type 0 where
  answered : Commit
  refused : Fault → Commit
  unconfirmed : Fault → Commit

-- An identity column's values are not given back by a rollback.
abbrev pub rolled_back : Db → Db → Db
rolled_back before after = record before { next_seq = after.next_seq }

unfoldable pub finish :
    {A : Type 0} → Commit → Db → Db × Result StoreError A → Db × Result StoreError A
finish _ before (after, err e) = (rolled_back before after, err e)
finish answered before (after, ok a) = (after, ok a)
finish (refused f) before (after, ok a) = (rolled_back before after, err (database f))
finish (unconfirmed f) before (after, ok a) = (after, err (database f))

-- A transaction; a statement outside of one is a transaction of its own.
abbrev pub transaction : {A : Type 0} → Commit → Tx A → Tx A
transaction commit m before = finish commit before (m before)

abbrev pub all_pass : List Row → Bool
all_pass [] = true
all_pass (r ∷ rs) = row_check r && all_pass rs

abbrev pub replace : (Row → Bool) → (Row → Row) → Row → Row
replace test change r = if test r then change r else r

-- `UPDATE … SET … WHERE … RETURNING`: the rows that pass the test are changed and returned, unless
-- a changed row violates a constraint.
unfoldable pub update_rows : (List Row → Row → Bool) → (Row → Row) → Tx (List Row)
update_rows where_ change db =
    let changed = map change (filter (where_ db.updates) db.updates) in
    if all_pass changed
    then (record db { updates = map (replace (where_ db.updates) change) db.updates }, ok changed)
    else (db, err constraint_violated)
