-- ===== src/Postgres/Latest.antt =====
-- The latest quote of a pair is the newest of its completed updates.
pub mod Completion
pub mod Steps
pub mod History
use fx_quotes.Prelude.{
  ℕ, ◌+◌, ◌≤◌, ◌<◌, ◌≡◌, ◌≢◌, refl, sym, ap, ◌∙◌, ◌⊎◌, inl, inr, Bool, true, false, ◌&&◌, ◌||◌,
  List, [], ◌∷◌, ◌++◌, Option, none, some, Result, ok, err, arith, Memᴰ, map, filter, All, All-map,
  All-In, In-cases, Bool-cases, if◌then◌else◌,
}
use fx_quotes.Text.{Text, text_eq}
use fx_quotes.Text.Laws.{text_eq_iff, text_eq_refl}
use fx_quotes.Entity.Update.{completed}
use fx_quotes.Usecase.Commands.{StoreError, CompleteCommand}
use fx_quotes.Postgres.Schema.{Row, LatestRow, Db}
use fx_quotes.Postgres.Queue.Completion.{is_newer, upsert, latest_of}
use fx_quotes.Postgres.Store.{find_latest}

-- The entries of `latest_quotes` that completed rows stand for.
abbrev pub Completes : Row → LatestRow → Type 0
Completes r l = (r.status ≡ completed) × (latest_of r ≡ ok l)

-- Not newer, in the order by source date and number.
abbrev pub UpTo : LatestRow → LatestRow → Type 0
UpTo l m = is_newer l m ≡ false

-- The table of latest quotes against the completed rows: each entry stands for a completed row, and
-- each completed row has an entry of its pair that is at least as new.
pub record IsLatest (rows : List Row) (latest : List LatestRow) : Type 0 where
  pub from_rows : (l : LatestRow) → Memᴰ l latest → (r : Row) × Memᴰ r rows × Completes r l
  pub covers :
      (r : Row) (l : LatestRow)
      → Memᴰ r rows
      → Completes r l
      → (m : LatestRow) × (find_latest l.pair latest ≡ some m) × UpTo l m

pub UpTo-trans : (a b c : LatestRow) → UpTo a b → UpTo b c → UpTo a c
unfolding is_newer
UpTo-trans a b c h k = ground arith

UpTo-refl : (a : LatestRow) → UpTo a a
unfolding is_newer
UpTo-refl a = ground arith

newer-UpTo : (a b : LatestRow) → is_newer a b ≡ true → UpTo b a
unfolding is_newer
newer-UpTo a b h = ground arith

-- `upsert` puts in the newer of the entry and the new one, and leaves the other pairs alone.
pub upsert_self :
    (new : LatestRow) (ls : List LatestRow)
    → (m : LatestRow) × (find_latest new.pair (upsert new ls) ≡ some m) × UpTo new m
unfolding upsert find_latest
upsert_self new [] = (new, ground (arith, text_eq_refl new.pair), UpTo-refl new)
upsert_self new (l ∷ ls) = elim (Bool-cases (text_eq l.pair new.pair)) [
  | inl same ↦ elim (Bool-cases (is_newer new l)) [
    | inl newer ↦ (new, ground (arith, text_eq_refl new.pair), UpTo-refl new)
    | inr older ↦ (l, ground arith, older)
  ]
  | inr other ↦ let (m, e, h) = upsert_self new ls in (m, ground arith, h)
]

pub upsert_grows :
    (new : LatestRow) (pair : Text) (ls : List LatestRow) (m : LatestRow)
    → find_latest pair ls ≡ some m
    → (n : LatestRow) × (find_latest pair (upsert new ls) ≡ some n) × UpTo m n
unfolding upsert find_latest
upsert_grows new pair [] m h = cc h
upsert_grows new pair (l ∷ ls) m h = elim (Bool-cases (text_eq l.pair new.pair)) [
  | inl same ↦
      let e = (text_eq_iff l.pair new.pair).0 same in
      elim (Bool-cases (text_eq l.pair pair)) [
        | inl hit ↦ elim (Bool-cases (is_newer new l)) [
          | inl newer ↦ (new, rw (same, newer, ← e, hit), ground (arith, newer-UpTo new l))
          | inr older ↦ (l, ground arith, ground (arith, UpTo-refl l))
        ]
        | inr miss ↦ elim (Bool-cases (is_newer new l)) [
          | inl newer ↦ (m, rw (same, newer, ← e, miss) (ground arith), UpTo-refl m)
          | inr older ↦ (m, ground arith, UpTo-refl m)
        ]
      ]
  | inr other ↦ elim (Bool-cases (text_eq l.pair pair)) [
    | inl hit ↦ (l, ground arith, ground (arith, UpTo-refl l))
    | inr miss ↦ let (n, f, up) = upsert_grows new pair ls m (ground arith) in (n, ground arith, up)
  ]
]

pub upsert-In :
    (new : LatestRow) (ls : List LatestRow) {x : LatestRow}
    → Memᴰ x (upsert new ls)
    → (x ≡ new) ⊎ Memᴰ x ls
unfolding upsert
upsert-In new [] h = elim (In-cases h) [ inl e ↦ inl e | inr m ↦ inr m ]
upsert-In new (l ∷ ls) {x} h = elim (Bool-cases (text_eq l.pair new.pair)) [
  | inl same ↦ elim (Bool-cases (is_newer new l)) [
    | inl newer ↦ elim (In-cases (rw (same, newer) at h)) [
      | inl e ↦ inl e
      | inr m ↦ inr (Memᴰ.tail m)
    ]
    | inr older ↦ inr (rw (same, older) at h)
  ]
  | inr other ↦ elim (In-cases (rw other at h)) [
    | inl e ↦ inr (Memᴰ.head e)
    | inr m ↦ elim (upsert-In new ls m) [ inl e ↦ inl e | inr k ↦ inr (Memᴰ.tail k) ]
  ]
]
