-- ===== src/Http/Admission/Outcome.antt =====
-- What `create` lets through to the service, and how it refuses the rest.
use fx_quotes.Prelude.{
  ◌≤◌, ◌<◌, ◌≡◌, refl, ap, true, false, ◌&&◌, List, [], ◌∷◌, Option, none, some, ok, arith, &&-both,
  if_cases, if◌then◌else◌, length, ◌==◌, ltb,
}
use fx_quotes.Text.{Text, codes}
use fx_quotes.Text.Laws.{text_eq_iff, text_eq_refl}
use fx_quotes.Entity.Pair.{Pair, parse_pair, print}
use fx_quotes.Entity.Pair.RoundTrip.{IsSupported}
use fx_quotes.Http.Request.{Request, decode_pair}
use fx_quotes.Http.Response.{write_problem}
use fx_quotes.Http.Handler.{
  Handler, Library, Reply, answered, create, after_create, key_of, create_decoded, is_json,
  first_of, max_body_bytes, invalid_request,
}
use fx_quotes.Http.Admission.{canonical_pair-IsSupported, decode_pair-eq-some}
use fx_quotes.Http.Admission.Key.{IsKeyOf, key_of-IsKeyOf, key_of-none}

-- There is one content type, and it is JSON.
abbrev pub IsJson : {D : Type 0} → Library D → Request → Type 0
IsJson library r =
    (value : Text) × (r.content_types ≡ value ∷ [])
    × (library.media_type value ≡ some (codes "application/json"))

-- The whole body has been read.
abbrev pub IsRead : Request → Type 0
IsRead r = (length r.body ≤ 1024) × (r.body_fails ≡ false)

-- How a POST is answered: by a problem, without a call of the service, or by what becomes of the
-- service's answer.
pub data Outcome {W D : Type 0} (library : Library D) (h : Handler W) (r : Request) (w : W)
    : W × Reply → Type 0 where
  wrong_media :
      ¬ IsJson library r
      → Outcome library h r w (w, answered (write_problem 415 [] (codes "unsupported_media_type")))
  too_large :
      IsJson library r
      → 1024 < length r.body
      → Outcome library h r w (w, answered (write_problem 413 [] (codes "payload_too_large")))
  unread :
      IsJson library r
      → length r.body ≤ 1024
      → r.body_fails ≡ true
      → Outcome library h r w (w, answered (write_problem 400 [] (codes "invalid_request")))
  bad_pair :
      IsJson library r
      → IsRead r
      → decode_pair library.json r.body ≡ none
      → Outcome library h r w (w, answered (write_problem 400 [] (codes "invalid_request")))
  bad_key :
      (pair : Pair)
      → IsJson library r
      → IsRead r
      → decode_pair library.json r.body ≡ some pair
      → ((key : Text) → ¬ IsKeyOf r.idempotency_keys key)
      → Outcome library h r w (w, answered (write_problem 400 [] (codes "invalid_request")))
  admitted :
      (pair : Pair) (key : Text)
      → IsJson library r
      → IsRead r
      → decode_pair library.json r.body ≡ some pair
      → IsSupported pair
      → parse_pair (print pair) ≡ ok pair
      → IsKeyOf r.idempotency_keys key
      → Outcome library h r w (
          after_create library h
            (h.service.create_update (record { pair = pair; idempotency_key = key }) w))

module _ {W D : Type 0} (library : Library D) (h : Handler W) (r : Request) (w : W) where
  is_json-eq :
      (media : Option Text) → is_json media ≡ true → media ≡ some (codes "application/json")
  is_json-eq none e = cc e
  is_json-eq (some t) e = ap some ((text_eq_iff t (codes "application/json")).0 e)

  -- The test of the content type.
  media_lem :
      (values : List Text)
      → (is_json (library.media_type (first_of values)) && length values == 1) ≡ true
      → (value : Text) × (values ≡ value ∷ [])
        × (library.media_type value ≡ some (codes "application/json"))
  media_lem [] e = ground (arith, e)
  media_lem (value ∷ []) e = (value, refl, is_json-eq (library.media_type value) (&&-both _ _ e).0)
  media_lem (value ∷ value' ∷ values) e = ground (arith, e)

  no_media_lem :
      (is_json (library.media_type (first_of r.content_types)) && length r.content_types == 1)
        ≡ false
      → ¬ IsJson library r
  no_media_lem e (value, one, media) =
      cc (rw (one, media, text_eq_refl (codes "application/json")) at e)

  decoded-Outcome :
      (decoded : Option Pair) (key : Option Text)
      → IsJson library r
      → IsRead r
      → decode_pair library.json r.body ≡ decoded
      → key_of r.idempotency_keys ≡ key
      → Outcome library h r w (create_decoded library h decoded r.idempotency_keys w)
  decoded-Outcome none key json read d k = bad_pair json read d
  decoded-Outcome (some pair) none json read d k =
      rw k (bad_key pair json read d (key_of-none r.idempotency_keys k))
  decoded-Outcome (some pair) (some key) json read d k =
      let (value, e) = decode_pair-eq-some library.json r.body d in
      let (supported, printed, back) = canonical_pair-IsSupported value e in
      rw k (admitted pair key json read d supported back (key_of-IsKeyOf r.idempotency_keys k))

  -- Each POST is answered in one of these ways, and the first five change nothing and do not call
  -- the service: 415 where there is not one content type or it is not JSON; else 413 where the body
  -- has more than 1024 bytes; else 400 where it cannot be read, where it is not the JSON object of
  -- one canonical pair, or where its headers give no key. Else the service is called for that pair,
  -- which is supported, and that key, which is empty without a header and else the visible value of
  -- the one header, and its answer becomes the reply.
  pub create-Outcome : Outcome library h r w (create library h r w)
  unfolding create
  create-Outcome =
      let P : W × Reply → Type 0 = λ reply. Outcome library h r w reply in
      let served : W × Reply =
        create_decoded library h (decode_pair library.json r.body) r.idempotency_keys w in
      let unless_unread : W × Reply =
        if r.body_fails then (w, answered invalid_request) else served in
      let unless_large : W × Reply =
        if ltb max_body_bytes (length r.body)
        then (w, answered (write_problem 413 [] (codes "payload_too_large")))
        else unless_unread in
      if_cases P _ (w, answered (write_problem 415 [] (codes "unsupported_media_type")))
        unless_large (λ e. wrong_media (no_media_lem (ground (arith, e))))
        (λ media.
          let json = media_lem r.content_types (ground (arith, media)) in
          if_cases P _ (w, answered (write_problem 413 [] (codes "payload_too_large")))
            unless_unread (λ e. too_large json (ground (arith, e)))
            (λ small.
              if_cases P _ (w, answered invalid_request) served
                (λ e. unread json (ground (arith, small)) e)
                (λ whole.
                  decoded-Outcome (decode_pair library.json r.body) (key_of r.idempotency_keys) json
                    (ground (arith, small), whole) refl refl)))
