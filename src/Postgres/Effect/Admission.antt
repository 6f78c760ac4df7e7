-- ===== src/Postgres/Effect/Admission.antt =====
-- The effect of admission.
use fx_quotes.Prelude.{◌<◌, ◌≡◌, refl, inl, inr, ◌||◌, ltb, List, [], ◌∷◌, arith, Bool-cases, not}
use fx_quotes.Text.{Text, byte_length}
use fx_quotes.Entity.Pair.{Pair, parse_pair, print}
use fx_quotes.Usecase.Commands.{CreateOrGetCommand, max_idempotency_key_bytes}
use fx_quotes.Postgres.Schema.{Row, Db, row_check}
use fx_quotes.Postgres.Row.{scan_update}
use fx_quotes.Postgres.Store.{
  CreateIo, existing, active_count, id_used, new_row, insert_row, admit_new, admit_existing, admit,
  create_body, create_or_get, or_invalid_pair,
}
use fx_quotes.Postgres.Effect.{Rules, Effect, kept, inserted, finish-Effect}
use fx_quotes.Postgres.Effect.Calls.{bind_result-after, trip-after}

module _ {rules : Rules} (io : CreateIo) (pair key : Text) (db : Db) where
  new_row-Effect :
      existing key db.updates ≡ []
      → active_count db.updates < rules.max_active
      → Effect rules db (insert_row (new_row io pair key db.next_seq) db).0
  unfolding insert_row new_row
  new_row-Effect absent room =
      let r = new_row io pair key db.next_seq in
      elim (Bool-cases (id_used r.id db.updates || not (row_check r))) [
        | inl bad ↦ rw bad (kept refl (omega arith))
        | inr good ↦ rw good (
            inserted key r (record {
              rows = refl;
              seq = refl;
              key_of = refl;
              key_new = absent;
              room = room;
              fresh = refl;
              unclaimed = refl;
              numbered = refl;
              id_new = ground arith;
              checked = ground arith;
            }))
      ]

  admit_new-Effect :
      existing key db.updates ≡ [] → Effect rules db (admit_new io pair key rules.max_active db).0
  unfolding admit_new
  admit_new-Effect absent = elim (Bool-cases (ltb (active_count db.updates) rules.max_active)) [
    | inl room ↦ rw room (new_row-Effect absent (ground arith))
    | inr full ↦ rw full (kept refl (omega arith))
  ]

  admit_existing-Effect :
      (rows : List Row)
      → existing key db.updates ≡ rows
      → Effect rules db (admit_existing io pair key rules.max_active rows db).0
  unfolding admit_existing
  admit_existing-Effect [] absent = admit_new-Effect absent
  admit_existing-Effect (r ∷ rows) found = kept refl (omega arith)

  pub admit-Effect : Effect rules db (admit io pair key rules.max_active db).0
  unfolding admit
  admit-Effect = admit_existing-Effect (existing key db.updates) refl

create_body-Effect :
    {rules : Rules} (io : CreateIo) (pair : Pair) (key : Text) (db : Db)
    → Effect rules db (create_body rules.max_active io pair key db).0
unfolding create_body
create_body-Effect {rules} io pair key db =
    let E = Effect rules db in
    let start : Effect rules db db = kept refl (omega arith) in
    trip-after E io.begin _ db start (
      trip-after E io.lock _ db start (
        trip-after E io.random _ db start (
          trip-after E io.query _ db start (
            bind_result-after E (admit io (print pair) key rules.max_active db) _
              (admit-Effect io (print pair) key db)
              λ found admitted.
                bind_result-after E
                  ((admit io (print pair) key rules.max_active db).0, scan_update found.0) _
                  (admit-Effect io (print pair) key db)
                  λ update scanned. admit-Effect io (print pair) key db))))

pub create_or_get-Effect :
    {rules : Rules} (io : CreateIo) (command : CreateOrGetCommand) (db : Db)
    → Effect rules db (create_or_get rules.max_active io command db).0
unfolding create_or_get
create_or_get-Effect {rules} io command db =
    let E = Effect rules db in
    let start : Effect rules db db = kept refl (omega arith) in
    elim (Bool-cases (ltb max_idempotency_key_bytes (byte_length command.idempotency_key))) [
      | inl long ↦ rw long start
      | inr fits ↦ rw fits (
          bind_result-after E (db, or_invalid_pair (parse_pair (print command.pair))) _ start
            λ pair parsed. trip-after E io.gate _ db start (
              finish-Effect io.commit db _ (create_body-Effect io pair command.idempotency_key db)))
    ]
