-- ===== src/Http/Handler.antt =====
-- internal/adapter/httpapi/handler.go, and `serveHTTP` of router.go. A handler acts on the state `W`
-- of what it calls; a nil dereference in the store is a panic.
use fx_quotes.Prelude.{
  ℕ, Bool, false, not, ◌&&◌, List, [], ◌∷◌, ◌++◌, Option, none, some, Result, ok, err, ltb, ◌==◌,
  if◌then◌else◌, length,
}
use fx_quotes.Text.{Text, codes, text_eq, is_empty, trim_prefix}
use fx_quotes.Entity.Pair.{Pair}
use fx_quotes.Entity.Update.{Quote, QuoteUpdate}
use fx_quotes.Usecase.Commands.{
  StoreError, nil_dereference, CreateUpdateCommand, CreateUpdateResult,
}
use fx_quotes.Http.Request.{Request, Decoder, decode_pair, canonical_pair, is_uuid, visible_ascii}
use fx_quotes.Http.Dto.{Formats, UpdateDto, map_update, map_quote}
use fx_quotes.Http.Response.{
  Response, update, quote, healthy, text, content_type, write_json, write_problem, write_error,
}
use fx_quotes.Http.Router.{
  route, updates_path, update_prefix, update_pattern, latest_path, live_path, ready_path,
}

-- `Service`.
pub record Api (W : Type 0) : Type 0 where
  pub create_update : CreateUpdateCommand → W → W × Result StoreError CreateUpdateResult
  pub get_update : Text → W → W × Result StoreError QuoteUpdate
  pub get_latest : Pair → W → W × Result StoreError Quote

-- `handler`: the notifier and the readiness check may be nil. The notifier's panic is caught, so
-- only what it does to the state matters.
pub record Handler (W : Type 0) : Type 0 where
  pub service : Api W
  pub notifier : Option (W → W)
  pub readiness : Option (W → Bool)

-- `mime.ParseMediaType`, `url.ParseQuery`, `encoding/json` and `time.Format`; and the document of
-- package api.
pub record Library (D : Type 0) : Type 0 where
  pub media_type : Text → Option Text
  pub query : Text → Option (List (Text × List Text))
  pub json : Decoder D
  pub formats : Formats
  pub openapi : Text

-- What a handler does: it answers, or it panics before it has written.
pub data Reply : Type 0 where
  answered : Response → Reply
  panicked : Reply

abbrev pub invalid_request : Response
invalid_request = write_problem 400 [] (codes "invalid_request")

abbrev pub internal_error : Response
internal_error = write_problem 500 [] (codes "internal_error")

-- A handler's answer to an error of the service.
abbrev pub failed_reply : StoreError → Reply
failed_reply nil_dereference = panicked
failed_reply e = answered (write_error e)

abbrev pub max_body_bytes : ℕ
max_body_bytes = 1024

-- The idempotency key of the headers: empty where there is none, and nothing where it is refused.
unfoldable pub key_of : List Text → Option Text
key_of [] = some []
key_of (key ∷ []) = if visible_ascii key then some key else none
key_of (key ∷ _ ∷ _) = none

abbrev pub first_of : List Text → Text
first_of [] = []
first_of (t ∷ _) = t

abbrev pub is_json : Option Text → Bool
is_json none = false
is_json (some media) = text_eq media (codes "application/json")

abbrev pub location : QuoteUpdate → List (Text × Text)
location u = (codes "Location", update_prefix ++ u.id) ∷ []

abbrev pub created_reply : ℕ → QuoteUpdate → Option UpdateDto → Reply
created_reply status u none = answered internal_error
created_reply status u (some dto) = answered (write_json status (location u) (update dto))

-- The value of `pair` where it is the one value of the one key.
abbrev pub only_pair : Option (List (Text × List Text)) → Option Text
only_pair (some ((key, value ∷ []) ∷ [])) = if text_eq key (codes "pair") then some value else none
only_pair _ = none

abbrev pub is_ready : {W : Type 0} → Option (W → Bool) → W → Bool
is_ready none w = false
is_ready (some check) w = check w

abbrev pub notify_with : {W : Type 0} → Option (W → W) → W → W
notify_with none w = w
notify_with (some send) w = send w

module _ {W D : Type 0} (library : Library D) (h : Handler W) where
  unfoldable pub notify : W → W
  notify w = notify_with h.notifier w

  abbrev pub update_reply : Option UpdateDto → Reply
  update_reply none = answered internal_error
  update_reply (some dto) = answered (write_json 200 [] (update dto))

  abbrev pub after_get_update : W × Result StoreError QuoteUpdate → W × Reply
  after_get_update (w, err e) = (w, failed_reply e)
  after_get_update (w, ok u) = (w, update_reply (map_update library.formats u))

  unfoldable pub get_update : Request → W → W × Reply
  get_update r w =
      let id = trim_prefix update_prefix r.path in
      if is_uuid id
      then after_get_update (h.service.get_update id w)
      else (w, answered invalid_request)

  abbrev pub after_get_latest : W × Result StoreError Quote → W × Reply
  after_get_latest (w, err e) = (w, failed_reply e)
  after_get_latest (w, ok q) =
      (w, answered (write_json 200 [] (quote (map_quote library.formats q))))

  abbrev latest_of_pair : Option Pair → W → W × Reply
  latest_of_pair none w = (w, answered invalid_request)
  latest_of_pair (some pair) w = after_get_latest (h.service.get_latest pair w)

  abbrev latest_of_value : Option Text → W → W × Reply
  latest_of_value none w = (w, answered invalid_request)
  latest_of_value (some value) w = latest_of_pair (canonical_pair value) w

  unfoldable pub get_latest : Request → W → W × Reply
  get_latest r w = latest_of_value (only_pair (library.query r.raw_query)) w

  unfoldable pub ready : W → W × Reply
  ready w =
      if is_ready h.readiness w
      then (w, answered (write_json 200 [] healthy))
      else (w, answered (write_problem 503 [] (codes "storage_unavailable")))

  -- `create` behind the service's answer.
  unfoldable pub after_create : W × Result StoreError CreateUpdateResult → W × Reply
  unfolding notify
  after_create (w, err e) = (w, failed_reply e)
  after_create (w, ok result) = (
    if result.created then notify w else w,
    created_reply (if result.created then 202 else 200) result.update
        (map_update library.formats result.update),
  )

  abbrev pub create_keyed : Pair → Option Text → W → W × Reply
  create_keyed pair none w = (w, answered invalid_request)
  create_keyed pair (some key) w =
      after_create (h.service.create_update (record { pair = pair; idempotency_key = key }) w)

  abbrev pub create_decoded : Option Pair → List Text → W → W × Reply
  create_decoded none keys w = (w, answered invalid_request)
  create_decoded (some pair) keys w = create_keyed pair (key_of keys) w

  unfoldable pub create : Request → W → W × Reply
  create r w =
      if not
        (is_json (library.media_type (first_of r.content_types)) && length r.content_types == 1)
      then (w, answered (write_problem 415 [] (codes "unsupported_media_type")))
      else if ltb max_body_bytes (length r.body)
      then (w, answered (write_problem 413 [] (codes "payload_too_large")))
      else if r.body_fails
      then (w, answered invalid_request)
      else create_decoded (decode_pair library.json r.body) r.idempotency_keys w

  abbrev openapi_response : Response
  openapi_response = record {
    status = 200;
    headers = content_type (codes "application/yaml") ∷ [];
    body = text library.openapi;
  }

  -- The switch of `serveHTTP` over the pattern.
  unfoldable pub dispatch : Text → Request → W → W × Reply
  dispatch pattern r w =
      if text_eq pattern updates_path
      then create r w
      else if text_eq pattern update_pattern
      then get_update r w
      else if text_eq pattern latest_path
      then get_latest r w
      else if text_eq pattern live_path
      then (w, answered (write_json 200 [] healthy))
      else if text_eq pattern ready_path
      then ready w
      else (w, answered openapi_response)

  unfoldable pub serve_http : Request → W → W × Reply
  serve_http r w =
      let (pattern, method) = route r.path in
      if is_empty method
      then (w, answered (write_problem 404 [] (codes "not_found")))
      else if not (text_eq r.method method)
      then (
        w,
        answered (write_problem 405 ((codes "Allow", method) ∷ []) (codes "method_not_allowed")),
      )
      else dispatch pattern r w
