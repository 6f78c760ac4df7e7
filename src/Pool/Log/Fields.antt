-- ===== src/Pool/Log/Fields.antt =====
-- What is logged of an error, and what is not.
use fx_quotes.Prelude.{
  ℕ, ◌≤◌, ◌≡◌, refl, inl, inr, ◌⊎◌, Bool, true, false, List, [], ◌∷◌, Option, none, some, arith,
  ◌==◌, if◌then◌else◌, All, if_cases, &&-both, Bool-cases, Option-cases,
}
use fx_quotes.Text.{Text, codes, byte_length}
use fx_quotes.Pool.GoError.{
  GoError, Link, links, any_link, first_state, root, reword, reword_link, links-reword, root-reword,
  any_link-map, first_state-map,
}
use fx_quotes.Pool.Log.{
  error_kind, all_state_codes, valid_state, state_field, failure_fields, error_fields,
}

abbrev pub Any : (Link → Type 0) → List Link → Type 0
Any P [] = ⊥
Any P (l ∷ ls) = P l ⊎ Any P ls

-- The class: a deadline anywhere in the tree before a cancellation anywhere in it.
pub data IsKind (e : GoError) : Text → Type 0 where
  deadline_exceeded :
      Any (λ l. l.is_deadline ≡ true) (links e) → IsKind e (codes "deadline_exceeded")
  canceled :
      All (λ l. l.is_deadline ≡ false) (links e)
      → Any (λ l. l.is_canceled ≡ true) (links e)
      → IsKind e (codes "canceled")
  internal :
      All (λ l. l.is_deadline ≡ false) (links e)
      → All (λ l. l.is_canceled ≡ false) (links e)
      → IsKind e (codes "internal")

-- A SQLSTATE: five digits and capital letters.
abbrev pub IsStateCode : ℕ → Type 0
IsStateCode c = ((b'0' ≤ c) × (c ≤ b'9')) ⊎ ((b'A' ≤ c) × (c ≤ b'Z'))

abbrev pub IsState : Text → Type 0
IsState code = (byte_length code ≡ 5) × All IsStateCode code

-- The first error of the list that has a SQLSTATE has this one.
abbrev pub FirstState : Text → List Link → Type 0
FirstState code [] = ⊥
FirstState code (l ∷ ls) = (l.sql_state ≡ some code) ⊎ ((l.sql_state ≡ none) × FirstState code ls)

-- The error's own SQLSTATE, where it has one of that form, and else no field.
pub data IsStateField (e : GoError) : List (Text × Text) → Type 0 where
  given :
      (code : Text)
      → FirstState code (links e)
      → IsState code
      → IsStateField e ((codes "sqlstate", code) ∷ [])
  malformed : (code : Text) → FirstState code (links e) → ¬ IsState code → IsStateField e []
  absent : All (λ l. l.sql_state ≡ none) (links e) → IsStateField e []

-- The fields of `logError` and those of `logFailure`, in full.
pub data IsLogged (e : GoError) : List (Text × Text) → List (Text × Text) → Type 0 where
  logged :
      (kind : Text) (state : List (Text × Text))
      → IsKind e kind
      → IsStateField e state
      → IsLogged e
          ((codes "outcome", codes "error")
            ∷ (codes "error_kind", kind)
            ∷ (codes "error_type", (root e).type_name)
            ∷ state)
          ((codes "error_kind", kind) ∷ (codes "error_type", (root e).type_name) ∷ [])

any_link-Any :
    (test : Link → Bool) (ls : List Link) → any_link test ls ≡ true → Any (λ l. test l ≡ true) ls
unfolding any_link
any_link-Any test [] h = cc h
any_link-Any test (l ∷ ls) h = elim (Bool-cases (test l)) [
  | inl yes_l ↦ inl yes_l
  | inr no_l ↦ inr (any_link-Any test ls (ground (arith, h, no_l)))
]

any_link-All :
    (test : Link → Bool) (ls : List Link) → any_link test ls ≡ false → All (λ l. test l ≡ false) ls
unfolding any_link
any_link-All test [] h = tt
any_link-All test (l ∷ ls) h = (ground (arith, h), any_link-All test ls (ground (arith, h)))

error_kind-IsKind : (e : GoError) → IsKind e (error_kind e)
unfolding error_kind
error_kind-IsKind e =
    let rest : Text =
      if any_link (λ l. l.is_canceled) (links e) then codes "canceled" else codes "internal" in
    if_cases (IsKind e) _ (codes "deadline_exceeded") rest
      (λ h. deadline_exceeded (any_link-Any _ (links e) h))
      (λ h.
        if_cases (IsKind e) _ (codes "canceled") (codes "internal")
          (λ h'. canceled (any_link-All _ (links e) h) (any_link-Any _ (links e) h'))
          (λ h'. internal (any_link-All _ (links e) h) (any_link-All _ (links e) h')))

all_state_codes-All : (s : Text) → all_state_codes s ≡ true → All IsStateCode s
unfolding all_state_codes
all_state_codes-All [] h = tt
all_state_codes-All (c ∷ s) h = (ground (arith, h), all_state_codes-All s (ground (arith, h)))

All-all_state_codes : (s : Text) → All IsStateCode s → all_state_codes s ≡ true
unfolding all_state_codes
All-all_state_codes [] h = refl
All-all_state_codes (c ∷ s) h = ground (arith, h.0, All-all_state_codes s h.1)

valid_state-IsState : (code : Text) → valid_state code ≡ true → IsState code
unfolding valid_state
valid_state-IsState code h =
    let (five, all) = &&-both (byte_length code == 5) (all_state_codes code) h in
    (ground (arith, five), all_state_codes-All code all)

IsState-valid_state : (code : Text) → IsState code → valid_state code ≡ true
unfolding valid_state
IsState-valid_state code (five, all) = ground (arith, five, All-all_state_codes code all)

first_state-none : (ls : List Link) → first_state ls ≡ none → All (λ l. l.sql_state ≡ none) ls
unfolding first_state
first_state-none [] h = tt
first_state-none (l ∷ ls) h = elim (Option-cases l.sql_state) [
  | inl none_l ↦ (none_l, first_state-none ls (rw none_l at h))
  | inr (code, some_l) ↦ cc (rw some_l at h)
]

first_state-some : (code : Text) (ls : List Link) → first_state ls ≡ some code → FirstState code ls
unfolding first_state
first_state-some code [] h = cc h
first_state-some code (l ∷ ls) h = elim (Option-cases l.sql_state) [
  | inl none_l ↦ inr (none_l, first_state-some code ls (rw none_l at h))
  | inr (code', some_l) ↦ inl (cc (some_l, rw some_l at h))
]

state_field-IsStateField :
    (e : GoError) (state : Option Text)
    → first_state (links e) ≡ state
    → IsStateField e (state_field state)
unfolding state_field
state_field-IsStateField e none h = absent (first_state-none (links e) h)
state_field-IsStateField e (some code) h =
    let first = first_state-some code (links e) h in
    if_cases (IsStateField e) (valid_state code) ((codes "sqlstate", code) ∷ []) []
      (λ valid. given code first (valid_state-IsState code valid))
      (λ invalid. malformed code first (λ state. cc (invalid, IsState-valid_state code state)))

error_kind-reword : (f : Text → Text) (e : GoError) → error_kind (reword f e) ≡ error_kind e
unfolding error_kind
error_kind-reword f e = rw (
  links-reword f e,
  any_link-map (λ l. l.is_deadline) (reword_link f) (λ l. refl) (links e),
  any_link-map (λ l. l.is_canceled) (reword_link f) (λ l. refl) (links e),
)

failure_fields-reword :
    (f : Text → Text) (e : GoError) → failure_fields (reword f e) ≡ failure_fields e
unfolding failure_fields
failure_fields-reword f e = rw (error_kind-reword f e, root-reword f e)

error_fields-reword : (f : Text → Text) (e : GoError) → error_fields (reword f e) ≡ error_fields e
unfolding error_fields
error_fields-reword f e =
    rw (error_kind-reword f e, root-reword f e, links-reword f e, first_state-map f (links e))

-- Of an error, the pool logs exactly its class, the type of the last error of its chain and, where
-- the first error of the tree that has a SQLSTATE has one of five digits and capital letters, that
-- SQLSTATE; the process logs exactly the class and the type. The class is a deadline where one is
-- anywhere in the tree, else a cancellation where one is, else internal. No text of an error is
-- logged: the fields stay the same whatever the texts of the tree are replaced by.
pub error_fields-IsLogged :
    (e : GoError) (f : Text → Text)
    → IsLogged e (error_fields e) (failure_fields e)
      × (error_fields (reword f e) ≡ error_fields e)
      × (failure_fields (reword f e) ≡ failure_fields e)
unfolding error_fields failure_fields
error_fields-IsLogged e f = (
  logged (error_kind e) (state_field (first_state (links e))) (error_kind-IsKind e)
      (state_field-IsStateField e (first_state (links e)) refl),
  error_fields-reword f e,
  failure_fields-reword f e,
)
