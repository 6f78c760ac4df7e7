-- ===== src/Postgres/Idempotency.antt =====
-- `CreateOrGet` with an idempotency key that a row already has.
use fx_quotes.Prelude.{
  ℕ, ◌≤◌, ◌≡◌, refl, subst, sym, ap, ◌∙◌, inl, inr, true, false, List, [], ◌∷◌, none, some, ok, err,
  arith, Memᴰ, All, Bool-cases, if◌then◌else◌, filter, ltb,
}
use fx_quotes.Text.{Text, byte_length}
use fx_quotes.Text.Laws.{text_eq_refl}
use fx_quotes.Entity.Pair.{Pair, parse_pair, print}
use fx_quotes.Entity.Update.{QuoteUpdate}
use fx_quotes.Usecase.Commands.{idempotency_conflict, max_idempotency_key_bytes}
use fx_quotes.Postgres.Schema.{Row, Db, row_check, key_check}
use fx_quotes.Postgres.Row.{scan_update}
use fx_quotes.Postgres.Tx.{answered, finish}
use fx_quotes.Postgres.Store.{
  CreateIo, nullif_empty, key_equal, existing, admit, admit_existing, create_body, create_or_get,
  same_pair,
}
use fx_quotes.Postgres.Claim.{all_pass-In}
use fx_quotes.Postgres.Invariant.{Inv, Pairs, OtherKey}

-- The driver's calls answer, and the wait for the gate ends well.
pub record IsHealthy (io : CreateIo) : Type 0 where
  pub gate : io.gate ≡ none
  pub begin : io.begin ≡ none
  pub lock : io.lock ≡ none
  pub random : io.random ≡ none
  pub query : io.query ≡ none
  pub commit : io.commit ≡ answered

All-at : (P : Row → Type 0) (rows : List Row) {r : Row} → All P rows → Memᴰ r rows → P r
All-at P [] h m = elim m [ ]
All-at P (x ∷ xs) h (Memᴰ.head e) = subst P (sym e) h.0
All-at P (x ∷ xs) h (Memᴰ.tail m) = All-at P xs h.1 m

-- No two rows have one key, so the row that has it is the first found.
existing-In :
    (key : Text) (rows : List Row) {r : Row}
    → nullif_empty key ≡ some key
    → Pairs OtherKey rows
    → Memᴰ r rows
    → r.idempotency_key ≡ some key
    → (rest : List Row) × (existing key rows ≡ r ∷ rest)
unfolding existing
existing-In key [] n d m k = elim m [ ]
existing-In key (x ∷ xs) {r} n d (Memᴰ.head e) k = (
  filter (λ z. key_equal z.idempotency_key (nullif_empty key)) xs,
  first x (ap (λ (z : Row). z.idempotency_key) (sym e) ∙ k)
      ∙ ap (λ z. z ∷ filter (λ w. key_equal w.idempotency_key (nullif_empty key)) xs) (sym e),
)
  where
    first :
        (x : Row)
        → x.idempotency_key ≡ some key
        → existing key (x ∷ xs)
          ≡ x ∷ filter (λ z. key_equal z.idempotency_key (nullif_empty key)) xs
    first x h =
        let found : key_equal x.idempotency_key (nullif_empty key) ≡ true =
          rw (h, n, text_eq_refl key) in
        rw found
existing-In key (x ∷ xs) {r} n d (Memᴰ.tail m) k =
    let (rest, e) = existing-In key xs n d.1 m k in
    let other = All-at (OtherKey x) xs d.0 m in
    let missed : key_equal x.idempotency_key (nullif_empty key) ≡ false = rw n (rw k at other) in
    (rest, rw missed e)

key_check-nonempty :
    (key : Text) → key_check key ≡ true → (nullif_empty key ≡ some key) × (byte_length key ≤ 128)
unfolding key_check
key_check-nonempty [] h = cc h
key_check-nonempty (c ∷ s) h = (refl, ground arith)

row-key_check :
    (r : Row) {key : Text}
    → row_check r ≡ true
    → r.idempotency_key ≡ some key
    → key_check key ≡ true
unfolding row_check
row-key_check r h k = ground (arith, k)

module _ (max_active : ℕ) (io : CreateIo) (db : Db) (r : Row) (pair : Pair) (key : Text) where
  -- In a store that has the invariant, admission of a supported pair with the key of a row that can
  -- be decoded, over a driver that answers, changes nothing, whether or not
  -- there is room for new rows: it returns the update of that row as one that was there before, or,
  -- where the row is for another pair, the conflict.
  pub create_or_get-existing :
      {update : QuoteUpdate}
      → IsHealthy io
      → Inv max_active db
      → Memᴰ r db.updates
      → r.idempotency_key ≡ some key
      → scan_update r ≡ ok update
      → parse_pair (print pair) ≡ ok pair
      → create_or_get max_active io (record { pair = pair; idempotency_key = key }) db
        ≡ (db, if same_pair update.pair pair then ok (update, false) else err idempotency_conflict)
  unfolding create_or_get create_body admit admit_existing finish
  create_or_get-existing {update} healthy v m k scanned parsed =
      let (full, fits) =
        key_check-nonempty key (row-key_check r (all_pass-In db.updates v.checked m) k) in
      let (rest, e) = existing-In key db.updates full v.keys m k in
      let short : ltb max_idempotency_key_bytes (byte_length key) ≡ false = ground arith in
      elim (Bool-cases (same_pair update.pair pair)) [
        | inl same ↦ rw (
          short, parsed, healthy.gate, healthy.begin, healthy.lock, healthy.random, healthy.query,
          healthy.commit, e, scanned, same,
        )
        | inr other ↦ rw (
          short, parsed, healthy.gate, healthy.begin, healthy.lock, healthy.random, healthy.query,
          healthy.commit, e, scanned, other,
        )
      ]
