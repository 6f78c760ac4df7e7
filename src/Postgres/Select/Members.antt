-- ===== src/Postgres/Select/Members.antt =====
-- The rows that a SELECT returns are rows of the table that pass its test; and an id among theirs
-- picks out no other row.
use fx_quotes.Prelude.{
  ℕ, ◌≡◌, refl, sym, ap, ◌∙◌, ◌⊎◌, inl, inr, Bool, true, false, List, [], ◌∷◌, arith, filter, Memᴰ,
  In-take, In-cases, In-filter, Bool-cases,
}
use fx_quotes.Text.{Text, text_eq}
use fx_quotes.Text.Laws.{text_eq_iff}
use fx_quotes.Entity.Pair.RoundTrip.{is_one_of}
use fx_quotes.Postgres.Schema.{Row}
use fx_quotes.Postgres.Select.{not_after, insert_by, sort_by, select, id_in}
use fx_quotes.Postgres.Store.{id_used}

module _ (key : Row → ℕ) where
  In-insert_by :
      (r : Row) (xs : List Row) {x : Row} → Memᴰ x (insert_by key r xs) → (x ≡ r) ⊎ Memᴰ x xs
  unfolding insert_by
  In-insert_by r [] h = In-cases h
  In-insert_by r (y ∷ ys) h = elim (Bool-cases (not_after key r y)) [
    | inl first ↦ In-cases (rw first at h)
    | inr later ↦ elim (In-cases (rw later at h)) [
      | inl e ↦ inr (Memᴰ.head e)
      | inr k ↦ elim (In-insert_by r ys k) [ inl e ↦ inl e | inr m ↦ inr (Memᴰ.tail m) ]
    ]
  ]

  insert_by-In :
      (r : Row) (xs : List Row) {x : Row} → (x ≡ r) ⊎ Memᴰ x xs → Memᴰ x (insert_by key r xs)
  unfolding insert_by
  insert_by-In r [] (inl e) = Memᴰ.head e
  insert_by-In r [] (inr h) = elim h [ ]
  insert_by-In r (y ∷ ys) h = elim (Bool-cases (not_after key r y)) [
    | inl first ↦ elim h [ inl e ↦ rw first (Memᴰ.head e) | inr k ↦ rw first (Memᴰ.tail k) ]
    | inr later ↦ rw later (insert_later y ys h (insert_by-In r ys))
  ]
    where
      insert_later :
          (y : Row) (ys : List Row) {x : Row}
          → (x ≡ r) ⊎ Memᴰ x (y ∷ ys)
          → ((x ≡ r) ⊎ Memᴰ x ys → Memᴰ x (insert_by key r ys))
          → Memᴰ x (y ∷ insert_by key r ys)
      insert_later y ys (inl e) ih = Memᴰ.tail (ih (inl e))
      insert_later y ys (inr (Memᴰ.head e)) ih = Memᴰ.head e
      insert_later y ys (inr (Memᴰ.tail k)) ih = Memᴰ.tail (ih (inr k))

  pub sort_by-In : (xs : List Row) {x : Row} → Memᴰ x xs → Memᴰ x (sort_by key xs)
  unfolding sort_by
  sort_by-In [] h = h
  sort_by-In (y ∷ ys) (Memᴰ.head e) = insert_by-In y (sort_by key ys) (inl e)
  sort_by-In (y ∷ ys) (Memᴰ.tail h) = insert_by-In y (sort_by key ys) (inr (sort_by-In ys h))

  pub In-sort_by : (xs : List Row) {x : Row} → Memᴰ x (sort_by key xs) → Memᴰ x xs
  unfolding sort_by
  In-sort_by [] h = h
  In-sort_by (y ∷ ys) h = elim (In-insert_by y (sort_by key ys) h) [
    | inl e ↦ Memᴰ.head e
    | inr k ↦ Memᴰ.tail (In-sort_by ys k)
  ]

  pub In-select :
      (test : Row → Bool) (limit : ℕ) (rows : List Row) {x : Row}
      → Memᴰ x (select test key limit rows)
      → Memᴰ x rows × (test x ≡ true)
  In-select test limit rows h =
      In-filter test rows (In-sort_by (filter test rows) (In-take limit _ (unfold select in h)))

-- The primary key: no two rows have one id.
abbrev pub Distinct : List Row → Type 0
Distinct [] = Unit {0}
Distinct (r ∷ rs) = (id_used r.id rs ≡ false) × Distinct rs

pub id_used-In :
    (id : Text) (rows : List Row) {x : Row} → id_used id rows ≡ false → Memᴰ x rows → x.id ≡ id → ⊥
id_used-In id [] h k q = elim k [ ]
id_used-In id (r ∷ rows) h (Memᴰ.head e) q = ground (arith, (text_eq_iff r.id id).1 (rw e at q))
id_used-In id (r ∷ rows) h (Memᴰ.tail k) q = id_used-In id rows (ground arith) k q

pub Distinct-eq :
    (rows : List Row) {x y : Row} → Distinct rows → Memᴰ x rows → Memᴰ y rows → x.id ≡ y.id → x ≡ y
Distinct-eq [] d h k q = elim h [ ]
Distinct-eq (r ∷ rows) d (Memᴰ.head e) (Memᴰ.head f) q = e ∙ sym f
Distinct-eq (r ∷ rows) d (Memᴰ.head e) (Memᴰ.tail k) q =
    absurd (id_used-In r.id rows d.0 k (sym q ∙ ap (λ (z : Row). z.id) e))
Distinct-eq (r ∷ rows) d (Memᴰ.tail h) (Memᴰ.head f) q =
    absurd (id_used-In r.id rows d.0 h (rw f at q))
Distinct-eq (r ∷ rows) d (Memᴰ.tail h) (Memᴰ.tail k) q = Distinct-eq rows d.1 h k q

pub id_in-In :
    (chosen : List Row) (r : Row)
    → id_in chosen r ≡ true
    → (x : Row) × Memᴰ x chosen × (x.id ≡ r.id)
unfolding id_in is_one_of
id_in-In [] r h = cc
id_in-In (c ∷ cs) r h = elim (Bool-cases (text_eq r.id c.id)) [
  | inl same ↦ (c, Memᴰ.head refl, sym ((text_eq_iff r.id c.id).0 same))
  | inr other ↦ let (x, m, e) = id_in-In cs r (rw other at h) in (x, Memᴰ.tail m, e)
]

pub In-id_in : (chosen : List Row) {x : Row} → Memᴰ x chosen → id_in chosen x ≡ true
unfolding id_in is_one_of
In-id_in [] h = elim h [ ]
In-id_in (c ∷ cs) {x} (Memᴰ.head e) =
    let same = (text_eq_iff x.id c.id).1 (ap (λ (r : Row). r.id) e) in ground arith
In-id_in (c ∷ cs) {x} (Memᴰ.tail h) = ground (arith, In-id_in cs h)

-- A row of the table whose id a SELECT returns is a row that the SELECT returns.
pub id_in-select :
    (test : Row → Bool) (key : Row → ℕ) (limit : ℕ) (rows : List Row) {r : Row}
    → Distinct rows
    → Memᴰ r rows
    → id_in (select test key limit rows) r ≡ true
    → Memᴰ r (select test key limit rows) × (test r ≡ true)
id_in-select test key limit rows {r} d m h =
    let (x, chosen, e) = id_in-In (select test key limit rows) r h in
    let (listed, pass) = In-select key test limit rows chosen in
    let same = Distinct-eq rows d listed m e in (rw same at chosen, rw same at pass)
