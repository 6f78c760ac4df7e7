-- ===== src/Examples/Http.antt =====
-- Requests over the store at a concrete history.
use fx_quotes.Prelude.{
  ℕ, ◌<◌, ◌≡◌, refl, ◌⊎◌, Bool, true, false, List, [], ◌∷◌, ◌++◌, Option, none, some, arith,
  if◌then◌else◌, ◌==◌, replicate, All,
}
use fx_quotes.Text.{Text, codes, text_eq, utf8, trim_prefix, hex_encode}
use fx_quotes.Text.Hex.{IsByte}
use fx_quotes.Entity.Pair.{parse_pair}
use fx_quotes.Entity.Pair.RoundTrip.{is_one_of}
use fx_quotes.Postgres.UpdateId.{new_update_id, set_byte, version_byte, variant_byte, slice}
use fx_quotes.Postgres.UpdateId.Shape.{new_update_id-is_uuid}
use fx_quotes.Postgres.Store.{same_pair}
use fx_quotes.Usecase.Commands.{idempotency_conflict}
use fx_quotes.Postgres.Worker.{StoreState}
use fx_quotes.Http.Request.{
  Request, Token, delim, string, eof, failed, Decoder, decode_pair, decode_name, decode_end,
  canonical_pair, is_uuid, visible_ascii, all_visible, hex_run,
}
use fx_quotes.Http.Dto.{UpdateDto}
use fx_quotes.Http.Response.{Response, healthy, update, write_json, write_error}
use fx_quotes.Http.Router.{get, post, update_prefix, updates_path}
use fx_quotes.Http.Handler.{
  Library, answered, key_of, create, get_update, serve_http, after_get_update,
}
use fx_quotes.Http.Admission.Outcome.{Outcome, create-Outcome}
use fx_quotes.Http.Middleware.{write_header, write, middleware}
use fx_quotes.Http.Middleware.Once.{statuses, middleware_once}
use fx_quotes.App.Api.Reads.{postgres_handler, Served, get_update-Served}
use fx_quotes.App.Api.Rows.{ShowsRow}
use fx_quotes.App.Api.Retries.{IsPost, create-existing}
use fx_quotes.App.Api.Follow.{create-then_get}
use fx_quotes.Postgres.Steps.{empty_db}
use fx_quotes.Postgres.Invariant.{run-empty-Inv}
use fx_quotes.Examples.Entity.{pad_numeric}
use fx_quotes.Examples.ReadBack.{first_update, created_db, first_update-created}
use fx_quotes.App.Api.Locations.{serve_http-new_update_id}
use fx_quotes.Examples.World.{limits, first_id, pair, creating}
use fx_quotes.Examples.Worker.{env, policy}
use fx_quotes.Examples.Postgres.{
  waiting_db, waiting_db-Inv, waiting_row, waiting_row-In, waiting_update, waiting_row-scanned,
  create_io-IsHealthy,
}

abbrev next_token : List Token → List Token × Token
next_token [] = ([], eof)
next_token (t ∷ ts) = (ts, t)

abbrev has_more : List Token → Bool
has_more [] = false
has_more (delim c ∷ ts) = if c == b'}' then false else true
has_more (_ ∷ ts) = true

abbrev next_string : List Token → List Token × Option Text
next_string (string s ∷ ts) = (ts, some s)
next_string ts = (ts, none)

abbrev posted_tokens : List Token
posted_tokens = delim b'{' ∷ string (codes "pair") ∷ string (codes "USD/EUR") ∷ delim b'}' ∷ []

abbrev posted_body : List ℕ
posted_body = codes "{\"pair\":\"USD/EUR\"}"

-- A decoder that reads one body.
abbrev json : Decoder (List Token)
json = record {
  start = λ body. if text_eq body posted_body then posted_tokens else failed ∷ [];
  token = next_token;
  more = has_more;
  decode_string = next_string;
}

abbrev library : Library (List Token)
library = record {
  media_type = λ t. some t;
  query = λ t. some [];
  json = json;
  formats = record {
    date_only = λ d. codes "2024-10-04";
    rfc3339_nano = λ t. codes "2024-10-04T00:00:00Z";
  };
  openapi = codes "openapi: 3.1.0";
}

abbrev posted : Request
posted = record {
  method = post;
  path = updates_path;
  raw_query = [];
  content_types = codes "application/json" ∷ [];
  idempotency_keys = codes "key" ∷ [];
  request_ids = codes "r-1" ∷ [];
  body = posted_body;
  body_fails = false;
}

abbrev got : Text → Request
got id = record {
  method = get;
  path = update_prefix ++ id;
  raw_query = [];
  content_types = [];
  idempotency_keys = [];
  request_ids = [];
  body = [];
  body_fails = false;
}

abbrev state : StoreState
state = record { db = waiting_db; batch = 100 }

posted-IsPost : IsPost library posted pair (codes "key")
unfolding decode_pair decode_name decode_end canonical_pair key_of visible_ascii all_visible utf8
    text_eq parse_pair is_one_of
posted-IsPost = record {
  media = refl;
  one_type = refl;
  small = omega arith;
  whole = refl;
  decoded = refl;
  keyed = refl;
}

abbrev random_bytes : List ℕ
random_bytes = replicate 16 171

random_bytes-All : All IsByte random_bytes
random_bytes-All = omega arith

new_update_id-is_uuid_example :
    (id : Text) × (new_update_id (some random_bytes) ≡ some id) × (is_uuid id ≡ true)
new_update_id-is_uuid_example = new_update_id-is_uuid random_bytes refl random_bytes-All

middleware_once_example :
    let out =
      middleware posted random_bytes
        (write_header 202 ∷ write_header 500 ∷ write healthy ∷ [])
        true in
    (statuses out.0 ≡ (if out.1.status == 0 then [] else out.1.status ∷ []))
    × ((true ≡ false) ⊎ (0 < out.1.status))
    × (visible_ascii out.1.request_id ≡ true)
middleware_once_example =
    middleware_once posted random_bytes (write_header 202 ∷ write_header 500 ∷ write healthy ∷ [])
      true refl random_bytes-All (omega arith, (omega arith, (tt, tt)))

create-Outcome_example :
    let h = postgres_handler library limits policy env none none in
    Outcome library h posted state (create library h posted state)
create-Outcome_example =
    create-Outcome library (postgres_handler library limits policy env none none) posted state

get_update-Served_example :
    let id = trim_prefix update_prefix (got first_id).path in
    let out =
      get_update library
        (postgres_handler library limits policy env none none)
        (got first_id)
        state in
    (out.0 ≡ state)
    × ((response : Response) × (out.1 ≡ answered response)
        × Served library.formats none id (env.scan_uuid id) waiting_db response)
get_update-Served_example =
    get_update-Served library limits policy env none none (got first_id) state waiting_db-Inv

create-existing_example :
    (dto : UpdateDto) × ShowsRow library.formats waiting_row dto
    × (create library (postgres_handler library limits policy env none none) posted state ≡ (
      state,
      answered (
          if same_pair pair pair
          then write_json 200 ((codes "Location", update_prefix ++ first_id) ∷ []) (update dto)
          else write_error idempotency_conflict),
    ))
create-existing_example =
    create-existing library limits policy env none none posted pair (codes "key") state waiting_row
      waiting_update posted-IsPost create_io-IsHealthy waiting_db-Inv waiting_row-In refl
      waiting_row-scanned

abbrev random_id : Text
random_id = codes "abababab-abab-4bab-abab-abababababab"

random_id-made : new_update_id (some random_bytes) ≡ some random_id
unfolding new_update_id set_byte version_byte variant_byte slice hex_encode
random_id-made = refl

serve_http-new_update_id_example :
    let h = postgres_handler library limits policy env none none in
    serve_http library h (got random_id) state
    ≡ after_get_update library h (h.service.get_update random_id state)
serve_http-new_update_id_example =
    serve_http-new_update_id library (postgres_handler library limits policy env none none)
      random_bytes random_id (got random_id) state refl random_bytes-All random_id-made refl refl

create-then_get_example :
    let h = postgres_handler library limits policy env none none in
    let before : StoreState = record { db = empty_db; batch = 100 } in
    let after : StoreState = record { db = created_db; batch = 100 } in
    (dto : UpdateDto) × (create library h posted before ≡ (
      after,
      answered (write_json 202 ((codes "Location", update_prefix ++ first_id) ∷ []) (update dto)),
    ))
    × (serve_http library h (got first_id) after
        ≡ (after, answered (write_json 200 [] (update dto))))
unfolding is_uuid hex_run
create-then_get_example =
    create-then_get library limits policy env none posted (got first_id) pair (codes "key")
      (record { db = empty_db; batch = 100 }) created_db first_update true posted-IsPost
      first_update-created (run-empty-Inv pad_numeric limits (creating ∷ [])) refl refl refl refl
      refl
