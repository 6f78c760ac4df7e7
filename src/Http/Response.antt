-- ===== src/Http/Response.antt =====
-- internal/adapter/httpapi/response.go. A handler's answer is the status, the headers and the value
-- that it encodes.
use fx_quotes.Prelude.{ℕ, List, [], ◌∷◌, ◌++◌}
use fx_quotes.Text.{Text, codes}
use fx_quotes.Usecase.Commands.{
  StoreError, not_found, capacity_exceeded, idempotency_conflict, invalid_idempotency_key,
}
use fx_quotes.Http.Dto.{QuoteDto, UpdateDto}

-- `problemDTO` without its title, which is the status' text.
pub record Problem : Type 0 where
  pub type : Text
  pub status : ℕ
  pub code : Text

pub data Body : Type 0 where
  problem : Problem → Body
  update : UpdateDto → Body
  quote : QuoteDto → Body
  healthy : Body
  text : Text → Body

pub record Response : Type 0 where
  pub status : ℕ
  pub headers : List (Text × Text)
  pub body : Body

abbrev pub content_type : Text → Text × Text
content_type value = (codes "Content-Type", value)

unfoldable pub write_json : ℕ → List (Text × Text) → Body → Response
write_json status headers body = record {
  status = status;
  headers = headers ++ content_type (codes "application/json") ∷ [];
  body = body;
}

unfoldable pub write_problem : ℕ → List (Text × Text) → Text → Response
write_problem status headers code = record {
  status = status;
  headers = headers ++ content_type (codes "application/problem+json") ∷ [];
  body =
      problem
        (record { type = codes "urn:fx-quotes:problem:" ++ code; status = status; code = code });
}

unfoldable pub write_error : StoreError → Response
unfolding write_problem
write_error invalid_idempotency_key = write_problem 400 [] (codes "invalid_request")
write_error idempotency_conflict = write_problem 409 [] (codes "idempotency_conflict")
write_error not_found = write_problem 404 [] (codes "not_found")
write_error capacity_exceeded =
    write_problem 503 ((codes "Retry-After", codes "1") ∷ []) (codes "queue_full")
write_error _ = write_problem 503 [] (codes "storage_unavailable")
