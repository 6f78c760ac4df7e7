-- ===== src/Http/Admission.antt =====
-- What the handler of a POST reads of a request.
pub mod Key
pub mod Outcome
use fx_quotes.Prelude.{
  ℕ, ◌≤◌, ◌<◌, ◌≡◌, refl, subst, ◌⊎◌, inl, inr, true, List, [], ◌∷◌, Option, none, some, ok, arith,
  Bool-cases, Result-cases, if_both,
}
use fx_quotes.Text.{Text, text_eq, byte_length}
use fx_quotes.Text.Laws.{text_eq_iff}
use fx_quotes.Entity.Pair.{Pair, parse_pair, print}
use fx_quotes.Entity.Pair.RoundTrip.{IsSupported, parse_pair_sound}
use fx_quotes.Http.Request.{
  Request, Decoder, canonical_pair, decode_pair, decode_name, decode_end, decode_value,
  visible_ascii,
}
use fx_quotes.Http.Response.{Response, write_problem}
use fx_quotes.Http.Handler.{
  Handler, Library, Reply, answered, create, after_create, key_of, create_decoded,
}

-- A pair that is supported and reads back from its print.
pub canonical_pair-IsSupported :
    (value : Text) {pair : Pair}
    → canonical_pair value ≡ some pair
    → IsSupported pair × (print pair ≡ value) × (parse_pair (print pair) ≡ ok pair)
unfolding canonical_pair
canonical_pair-IsSupported value {pair} h = elim (Result-cases (parse_pair value)) [
  | inl (p, parsed) ↦ elim (Bool-cases (text_eq (print p) value)) [
    | inl same ↦
        let e : p ≡ pair = cc (rw (parsed, same) at h) in
        let (supported, back, listed) = parse_pair_sound value parsed in
        (
          subst IsSupported e supported,
          rw e at ((text_eq_iff (print p) value).0 same),
          rw e at back,
        )
    | inr other ↦ cc (rw (parsed, other) at h)
  ]
  | inr (e, failed) ↦ cc (rw failed at h)
]

module _ {D : Type 0} (json : Decoder D) where
  decode_end-eq-some :
      (value : Text) (d : D) {pair : Pair}
      → decode_end json value d ≡ some pair
      → canonical_pair value ≡ some pair
  unfolding decode_end
  decode_end-eq-some value d h = ground arith

  decode_value-eq-some :
      (out : D × Option Text) {pair : Pair}
      → decode_value json out ≡ some pair
      → (value : Text) × (canonical_pair value ≡ some pair)
  decode_value-eq-some (d, none) h = cc h
  decode_value-eq-some (d, some value) h = (value, decode_end-eq-some value d h)

  decode_name-eq-some :
      (d : D) {pair : Pair}
      → decode_name json d ≡ some pair
      → (value : Text) × (canonical_pair value ≡ some pair)
  unfolding decode_name
  decode_name-eq-some d {pair} h =
      let e : decode_value json (json.decode_string (json.token d).0) ≡ some pair = ground arith in
      decode_value-eq-some (json.decode_string (json.token d).0) e

  pub decode_pair-eq-some :
      (body : List ℕ) {pair : Pair}
      → decode_pair json body ≡ some pair
      → (value : Text) × (canonical_pair value ≡ some pair)
  unfolding decode_pair
  decode_pair-eq-some body {pair} h =
      let d = (json.token (json.start body)).0 in
      let e : decode_name json d ≡ some pair = ground arith in decode_name-eq-some d e

-- A key that the headers give is empty or visible, and at most 128 bytes long.
visible_ascii-length : (value : Text) → visible_ascii value ≡ true → byte_length value ≤ 128
unfolding visible_ascii byte_length
visible_ascii-length value h = ground arith

pub key_of-length : (keys : List Text) {key : Text} → key_of keys ≡ some key → byte_length key ≤ 128
unfolding key_of
key_of-length [] {key} h =
    let e : [] ≡ key = cc h in
    subst (λ k. byte_length k ≤ 128) e (unfold byte_length in omega arith)
key_of-length (k ∷ []) {key} h = elim (Bool-cases (visible_ascii k)) [
  | inl visible ↦
      let e : k ≡ key = cc (rw visible at h) in
      subst (λ k. byte_length k ≤ 128) e (visible_ascii-length k visible)
  | inr hidden ↦ cc (rw hidden at h)
]
key_of-length (k ∷ l ∷ ls) h = cc h
