-- ===== src/App/Api/Rows/Columns.antt =====
-- What the constraints of the table say of the columns of a row.
use fx_quotes.Prelude.{ℕ, ◌≡◌, refl, ◌⊎◌, inl, inr, true, Option, none, some, arith}
use fx_quotes.Text.{Text}
use fx_quotes.Entity.Pair.RoundTrip.{is_one_of, pair_texts}
use fx_quotes.Entity.Update.{pending, processing, completed, failed}
use fx_quotes.Postgres.Schema.{Row, row_check, state_shape, failure_check, is_some, is_none}

is_some-eq {ℓ} : {A : Type ℓ} (o : Option A) → is_some o ≡ true → (a : A) × (o ≡ some a)
is_some-eq none h = cc h
is_some-eq (some a) h = (a, refl)

is_none-eq {ℓ} : {A : Type ℓ} (o : Option A) → is_none o ≡ true → o ≡ none
is_none-eq none h = refl
is_none-eq (some a) h = cc h

-- The columns of a result are all there, or there is no rate.
abbrev pub HasResult : Row → Type 0
HasResult r =
    (rate : Text) × (provider : Text) × (date : ℕ) × (finished : ℕ) × (r.rate ≡ some rate)
    × (r.provider ≡ some provider)
    × (r.source_date ≡ some date)
    × (r.finished_at ≡ some finished)

completed_flags :
    (r : Row)
    → state_shape completed r ≡ true
    → (is_some r.rate ≡ true)
      × (is_some r.provider ≡ true)
      × (is_some r.source_date ≡ true)
      × (is_some r.finished_at ≡ true)
unfolding state_shape
completed_flags r h = (ground arith, ground arith, ground arith, ground arith)

pub completed_columns : (r : Row) → state_shape completed r ≡ true → HasResult r
completed_columns r h =
    let (has_rate, has_provider, has_date, has_finished) = completed_flags r h in
    let (rate, e) = is_some-eq r.rate has_rate in
    let (provider, f) = is_some-eq r.provider has_provider in
    let (date, g) = is_some-eq r.source_date has_date in
    let (finished, k) = is_some-eq r.finished_at has_finished in
    (rate, provider, date, finished, e, f, g, k)

pub failed_columns :
    (r : Row)
    → state_shape failed r ≡ true
    → (r.rate ≡ none) × ((code : Text) × (r.failure_code ≡ some code))
unfolding state_shape
failed_columns r h = (is_none-eq r.rate (ground arith), is_some-eq r.failure_code (ground arith))

pub completed_code : (r : Row) → state_shape completed r ≡ true → r.failure_code ≡ none
unfolding state_shape
completed_code r h = is_none-eq r.failure_code (ground arith)

pub waiting_columns :
    (r : Row)
    → (state_shape pending r ≡ true) ⊎ (state_shape processing r ≡ true)
    → (r.rate ≡ none) × (r.failure_code ≡ none)
unfolding state_shape
waiting_columns r (inl h) =
    (is_none-eq r.rate (ground arith), is_none-eq r.failure_code (ground arith))
waiting_columns r (inr h) =
    (is_none-eq r.rate (ground arith), is_none-eq r.failure_code (ground arith))

-- What the constraints say of a row: its pair is listed, its columns fit its status, and a failure
-- code is one of the two.
pub checked_parts :
    (r : Row)
    → row_check r ≡ true
    → (is_one_of r.pair pair_texts ≡ true)
      × (state_shape r.status r ≡ true)
      × ((code : Text) → r.failure_code ≡ some code → failure_check code ≡ true)
unfolding row_check
checked_parts r h = (ground arith, ground arith, λ code e. ground (arith, e))
