-- ===== src/Postgres/Claim.antt =====
-- `ClaimNext` takes the row that has been ready the longest.
use fx_quotes.Prelude.{
  ℕ, ◌+◌, ◌≡◌, refl, sym, subst, ◌⊎◌, inl, inr, Bool, true, false, List, [], ◌∷◌, Option, none,
  some, ok, err, arith, Memᴰ, map, filter, All, All-map, Bool-cases, &&-both, filter-In,
}
use fx_quotes.Entity.Rate.{or_empty}
use fx_quotes.Entity.Update.{QuoteUpdate, pending, processing}
use fx_quotes.Usecase.Commands.{no_work}
use fx_quotes.Postgres.Schema.{Row, Db, row_check, state_shape, is_none}
use fx_quotes.Postgres.Select.{not_after, insert_by, sort_by, select, id_in}
use fx_quotes.Text.Laws.{text_eq_iff}
use fx_quotes.Entity.Pair.RoundTrip.{is_one_of, pair_texts, parse_pair_complete}
use fx_quotes.Postgres.Store.{id_used}
use fx_quotes.Postgres.Select.Members.{Distinct, In-id_in, id_in-In, id_used-In, In-select}
use fx_quotes.Postgres.Queue.{Clock, is_ready, ready_at, to_claim, claimed, claim_next}
use fx_quotes.Postgres.Row.{scan_update}
use fx_quotes.Postgres.Tx.{answered, all_pass, replace, update_rows, finish}
use fx_quotes.Postgres.Invariant.{Inv}

abbrev pub IsFirst : (Row → ℕ) → Row → List Row → Type 0
IsFirst key m rows = All (λ x. not_after key m x ≡ true) rows

not_after_refl : (key : Row → ℕ) (a : Row) → not_after key a a ≡ true
unfolding not_after
not_after_refl key a = ground arith

not_after_trans :
    (key : Row → ℕ) (a b c : Row)
    → not_after key a b ≡ true
    → not_after key b c ≡ true
    → not_after key a c ≡ true
unfolding not_after
not_after_trans key a b c h k = ground arith

not_after_total : (key : Row → ℕ) (a b : Row) → not_after key a b ≡ false → not_after key b a ≡ true
unfolding not_after
not_after_total key a b h = ground arith

-- The head of the sorted rows is not after any of them.
sort_by-IsFirst :
    (key : Row → ℕ) (rows : List Row)
    → ((rows ≡ []) × (sort_by key rows ≡ []))
      ⊎ ((m : Row) × (rest : List Row) × (sort_by key rows ≡ m ∷ rest) × IsFirst key m rows)
unfolding sort_by insert_by
sort_by-IsFirst key [] = inl (refl, refl)
sort_by-IsFirst key (x ∷ xs) = elim (sort_by-IsFirst key xs) [
  | inl (none_left, e) ↦ inr (x, [], rw e, rw none_left (not_after_refl key x, tt))
  | inr (m, rest, e, first) ↦ elim (Bool-cases (not_after key x m)) [
    | inl before ↦ inr (
      x,
      m ∷ rest,
      rw (e, before),
      (not_after_refl key x, All-map (λ y h. not_after_trans key x m y before h) xs first),
    )
    | inr after ↦
        inr (m, insert_by key x rest, rw (e, after), (not_after_total key x m after, first))
  ]
]

select_one :
    (test : Row → Bool) (key : Row → ℕ) (rows : List Row)
    → ((filter test rows ≡ []) × (select test key 1 rows ≡ []))
      ⊎ ((m : Row) × (select test key 1 rows ≡ m ∷ []) × IsFirst key m (filter test rows))
unfolding select
select_one test key rows = elim (sort_by-IsFirst key (filter test rows)) [
  | inl (none_left, e) ↦ inl (none_left, rw e)
  | inr (m, rest, e, first) ↦ inr (m, rw e, first)
]

filter-None :
    (test : Row → Bool) (rows : List Row) → All (λ r. test r ≡ false) rows → filter test rows ≡ []
filter-None test [] h = refl
filter-None test (x ∷ xs) h = rw (h.0, filter-None test xs h.1)

id_used-others :
    (m : Row) (rows : List Row)
    → id_used m.id rows ≡ false
    → All (λ x. id_in (m ∷ []) x ≡ false) rows
unfolding id_in is_one_of
id_used-others m [] h = tt
id_used-others m (x ∷ xs) h = (
  ground (arith, text_eq_iff x.id m.id, text_eq_iff m.id x.id),
  id_used-others m xs (ground arith),
)

filter-head :
    (x : Row) (xs : List Row) → id_used x.id xs ≡ false → filter (id_in (x ∷ [])) (x ∷ xs) ≡ x ∷ []
filter-head x xs d =
    rw (In-id_in (x ∷ []) (Memᴰ.head refl), filter-None _ xs (id_used-others x xs d))

id_in_one : (m x : Row) → id_in (m ∷ []) x ≡ true → m.id ≡ x.id
id_in_one m x e = let (y, listed, same) = id_in-In (m ∷ []) x e in one y listed same
  where
    one : (y : Row) → Memᴰ y (m ∷ []) → y.id ≡ x.id → m.id ≡ x.id
    one y (Memᴰ.head q) same = rw q at same
    one y (Memᴰ.tail h) same = elim h [ ]

-- An id picks out one row.
filter-id_in :
    (m : Row) (rows : List Row)
    → Distinct rows
    → Memᴰ m rows
    → filter (id_in (m ∷ [])) rows ≡ m ∷ []
filter-id_in m [] d h = elim h [ ]
filter-id_in m (x ∷ xs) d (Memᴰ.head e) =
    subst (λ y. filter (id_in (y ∷ [])) (x ∷ xs) ≡ y ∷ []) (sym e) (filter-head x xs d.0)
filter-id_in m (x ∷ xs) d (Memᴰ.tail h) = elim (Bool-cases (id_in (m ∷ []) x)) [
  | inl same ↦ absurd (id_used-In x.id xs d.0 h (id_in_one m x same))
  | inr other ↦ rw other (filter-id_in m xs d.1 h)
]

is_none-eq : {A : Type 0} (o : Option A) → is_none o ≡ true → o ≡ none
is_none-eq none h = refl
is_none-eq (some a) h = cc h

pending_shape-claimed :
    (clock : Clock) (lease : ℕ) (r : Row)
    → state_shape pending r ≡ true
    → (state_shape processing (claimed clock lease r) ≡ true) × (r.rate ≡ none)
unfolding claimed state_shape
pending_shape-claimed clock lease r h = (ground arith, is_none-eq r.rate (ground arith))

is_ready-IsPending :
    (locked : Row → Bool) (clock : Clock) (r : Row)
    → is_ready locked clock r ≡ true
    → r.status ≡ pending
unfolding is_ready
is_ready-IsPending locked clock r h = ground arith

-- A ready row that passes the constraints passes them when it is claimed, and can be decoded.
claimed-checked :
    (clock : Clock) (lease : ℕ) (r : Row)
    → r.status ≡ pending
    → row_check r ≡ true
    → (row_check (claimed clock lease r) ≡ true)
      × (is_one_of r.pair pair_texts ≡ true)
      × (r.rate ≡ none)
unfolding claimed row_check
claimed-checked clock lease r ready h =
    let (shape, unrated) = pending_shape-claimed clock lease r (ground (arith, ready)) in
    (ground (arith, shape), ground arith, unrated)

claimed-scanned :
    (clock : Clock) (lease : ℕ) (r : Row)
    → is_one_of r.pair pair_texts ≡ true
    → r.rate ≡ none
    → (update : QuoteUpdate) × (scan_update (claimed clock lease r) ≡ ok update)
unfolding claimed scan_update
claimed-scanned clock lease r listed unrated =
    let (p, parsed, printed) = parse_pair_complete r.pair listed in
    (
      record {
        id = r.id;
        pair = p;
        status = processing;
        attempt = r.attempt + 1;
        quote = none;
        failure_code = or_empty r.failure_code;
        created_at = r.created_at;
      },
      rw (parsed, unrated),
    )

pub all_pass-In :
    (rows : List Row) {r : Row} → all_pass rows ≡ true → Memᴰ r rows → row_check r ≡ true
all_pass-In [] h m = elim m [ ]
all_pass-In (x ∷ xs) {r} h (Memᴰ.head e) = rw e (&&-both _ _ h).0
all_pass-In (x ∷ xs) {r} h (Memᴰ.tail m) = all_pass-In xs (&&-both _ _ h).1 m

no_ids :
    (change : Row → Row) (rows : List Row)
    → (filter (id_in []) rows ≡ []) × (map (replace (id_in []) change) rows ≡ rows)
unfolding id_in is_one_of
no_ids change [] = (refl, refl)
no_ids change (x ∷ xs) = let (none_left, same) = no_ids change xs in (none_left, rw same)

-- What a claim does to the table when it takes `r`.
abbrev pub take_row : Clock → ℕ → Row → Db → Db
take_row clock lease r db = record db {
  updates = map (replace (id_in (r ∷ [])) (claimed clock lease)) db.updates;
}

module _ (locked : Row → Bool) (clock : Clock) (lease : ℕ) (db : Db) where
  statement-none :
      to_claim locked clock db.updates ≡ []
      → update_rows (λ all. id_in (to_claim locked clock all)) (claimed clock lease) db
        ≡ (db, ok [])
  unfolding update_rows
  statement-none e =
      let (none_left, same) = no_ids (claimed clock lease) db.updates in rw (e, none_left, same)

  statement-one :
      (r : Row)
      → to_claim locked clock db.updates ≡ r ∷ []
      → filter (id_in (r ∷ [])) db.updates ≡ r ∷ []
      → row_check (claimed clock lease r) ≡ true
      → update_rows (λ all. id_in (to_claim locked clock all)) (claimed clock lease) db
        ≡ (take_row clock lease r db, ok (claimed clock lease r ∷ []))
  unfolding update_rows
  statement-one r e one passes = rw (e, one, passes)

  -- In a store that has the invariant, a claim that the database answers takes the ready row that comes first by the instant it is due
  -- and then by its number, begins its next attempt, and returns it; it finds no work only where no
  -- row is ready, and then leaves the database as it is.
  pub claim_next-IsFirst :
      (max_active : ℕ)
      → Inv max_active db
      → let ready = filter (is_ready locked clock) db.updates in
        let out = claim_next answered locked clock lease db in
        ((ready ≡ []) × (out ≡ (db, err no_work)))
        ⊎ ((r : Row) × (update : QuoteUpdate) × Memᴰ r ready
            × IsFirst ready_at r ready
            × (scan_update (claimed clock lease r) ≡ ok update)
            × (out ≡ (take_row clock lease r db, ok update)))
  unfolding claim_next finish to_claim
  claim_next-IsFirst max_active v = elim (select_one (is_ready locked clock) ready_at db.updates) [
    | inl (none_left, e) ↦ inl (none_left, rw (statement-none e))
    | inr (r, e, first) ↦
        let (listed, ready) =
          In-select ready_at (is_ready locked clock) 1 db.updates (rw e (Memᴰ.head refl)) in
        let (passes, known, unrated) =
          claimed-checked clock lease r (is_ready-IsPending locked clock r ready)
            (all_pass-In db.updates v.checked listed) in
        let (update, scanned) = claimed-scanned clock lease r known unrated in
        inr (
          r,
          update,
          filter-In (is_ready locked clock) db.updates listed ready,
          first,
          scanned,
          rw (statement-one r e (filter-id_in r db.updates v.distinct listed) passes, scanned),
        )
  ]
