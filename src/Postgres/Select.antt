-- ===== src/Postgres/Select.antt =====
-- `SELECT … WHERE … ORDER BY …, request_seq … LIMIT …` over the rows of `quote_updates`.
pub mod Members
use fx_quotes.Prelude.{
  ℕ, Bool, ◌&&◌, ◌||◌, List, [], ◌∷◌, map, filter, take, ltb, leb, ◌==◌, if◌then◌else◌,
}
use fx_quotes.Text.{Text, text_eq}
use fx_quotes.Entity.Pair.RoundTrip.{is_one_of}
use fx_quotes.Postgres.Schema.{Row}

-- By the key, and by `request_seq` where the keys are equal.
unfoldable pub not_after : (Row → ℕ) → Row → Row → Bool
not_after key a b = ltb (key a) (key b) || (key a == key b && leb a.request_seq b.request_seq)

unfoldable pub insert_by : (Row → ℕ) → Row → List Row → List Row
insert_by key r [] = r ∷ []
insert_by key r (x ∷ xs) =
    let rest = insert_by key r xs in if not_after key r x then r ∷ x ∷ xs else x ∷ rest

unfoldable pub sort_by : (Row → ℕ) → List Row → List Row
sort_by key [] = []
sort_by key (x ∷ xs) = insert_by key x (sort_by key xs)

unfoldable pub select : (Row → Bool) → (Row → ℕ) → ℕ → List Row → List Row
select test key limit rows = take limit (sort_by key (filter test rows))

abbrev pub ids : List Row → List Text
ids = map (λ r. r.id)

-- `id IN (SELECT id …)`.
unfoldable pub id_in : List Row → Row → Bool
id_in chosen r = is_one_of r.id (ids chosen)
