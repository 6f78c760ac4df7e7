-- ===== src/Http/Request/Uuid.antt =====
-- A path that ends in a UUID is the path of one update.
use fx_quotes.Prelude.{
  ℕ, zero, suc, ◌≡◌, refl, ◌∙◌, true, false, [], ◌∷◌, ◌++◌, Option, none, some, arith, Bool-cases,
  inl, inr, ==_iff, ◌==◌,
}
use fx_quotes.Text.{Text, text_eq, contains, strip_prefix, trim_prefix}
use fx_quotes.Http.Request.{hex_run, dash_run, at_end, is_uuid}
use fx_quotes.Http.Router.{route, update_prefix, update_pattern, get}

hex_run-contains :
    (n : ℕ) (s rest : Text) → hex_run n s ≡ some rest → contains b'/' s ≡ contains b'/' rest
unfolding hex_run contains
hex_run-contains zero s rest h = ground (arith, h)
hex_run-contains (suc n) [] rest h = cc h
hex_run-contains (suc n) (c ∷ s) rest h = ground (arith, hex_run-contains n s rest)

dash_run-inv :
    (n : ℕ) (o : Option Text) (rest : Text)
    → dash_run n o ≡ some rest
    → (s : Text) × (o ≡ some (b'-' ∷ s)) × (hex_run n s ≡ some rest)
dash_run-inv n none rest h = cc h
dash_run-inv n (some []) rest h = cc h
dash_run-inv n (some (c ∷ s)) rest h = elim (Bool-cases (c == b'-')) [
  | inl e ↦ (s, rw ((==_iff c b'-').0 e), rw e at h)
  | inr e ↦ cc (rw e at h)
]

-- A group behind a dash holds no slash.
dash_run-contains :
    (n : ℕ) (o : Option Text) (rest : Text)
    → dash_run n o ≡ some rest
    → (s : Text) × (o ≡ some s) × (contains b'/' s ≡ contains b'/' rest)
unfolding contains
dash_run-contains n o rest h =
    let (s, e, run) = dash_run-inv n o rest h in (b'-' ∷ s, e, hex_run-contains n s rest run)

at_end-eq : (o : Option Text) → at_end o ≡ true → o ≡ some []
at_end-eq none h = cc h
at_end-eq (some []) h = refl
at_end-eq (some (c ∷ s)) h = cc h

pub is_uuid-contains : (s : Text) → is_uuid s ≡ true → contains b'/' s ≡ false
unfolding is_uuid contains
is_uuid-contains s h =
    let (e, at_e, no_e) = dash_run-contains 12 _ [] (at_end-eq _ h) in
    let (d, at_d, no_d) = dash_run-contains 4 _ e at_e in
    let (c, at_c, no_c) = dash_run-contains 4 _ d at_d in
    let (b, at_b, no_b) = dash_run-contains 4 _ c at_c in
    hex_run-contains 8 s b at_b ∙ (no_b ∙ (no_c ∙ (no_d ∙ no_e)))

strip_prefix-append : (prefix s : Text) → strip_prefix prefix (prefix ++ s) ≡ some s
unfolding strip_prefix
strip_prefix-append [] s = refl
strip_prefix-append (c ∷ prefix) s = rw ((==_iff c c).1 refl) (strip_prefix-append prefix s)

pub trim_prefix-append : (prefix s : Text) → trim_prefix prefix (prefix ++ s) ≡ s
unfolding trim_prefix
trim_prefix-append prefix s = rw (strip_prefix-append prefix s, trim_prefix)

-- The path that `create` gives in `Location` is the path of one update.
pub route-is_uuid :
    (id : Text) → is_uuid id ≡ true → route (update_prefix ++ id) ≡ (update_pattern, get)
unfolding route text_eq
route-is_uuid id h = rw (strip_prefix-append update_prefix id, is_uuid-contains id h)
