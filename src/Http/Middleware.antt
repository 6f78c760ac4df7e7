-- ===== src/Http/Middleware.antt =====
-- internal/adapter/httpapi/middleware.go. A handler writes through `responseWriter`, which passes
-- calls on to the connection's writer; the access log keeps what the last deferred call logs.
pub mod Once
use fx_quotes.Prelude.{
  ℕ, ◌+◌, ◌/◌, ◌%◌, Bool, true, false, not, ◌&&◌, List, [], ◌∷◌, ◌++◌, map, Option, none, some, ltb,
  ◌==◌, if◌then◌else◌,
}
use fx_quotes.Text.{Text, codes, hex_encode}
use fx_quotes.Http.Request.{Request, visible_ascii}
use fx_quotes.Http.Response.{Response, Body, write_problem}
use fx_quotes.Http.Router.{route}
use fx_quotes.Http.Handler.{Reply, answered, panicked}

-- What a handler does with its `http.ResponseWriter`.
pub data Op : Type 0 where
  set_header : Text → Text → Op
  write_header : ℕ → Op
  write : Body → Op

-- `responseWriter` over the calls that it has passed on.
pub record Tracked : Type 0 where
  pub status : ℕ
  pub passed : List Op

abbrev pub pass : Op → Tracked → Tracked
pass op w = record w { passed = w.passed ++ op ∷ [] }

-- `WriteHeader`.
unfoldable pub track_header : ℕ → Tracked → Tracked
track_header status w =
    if not (w.status == 0) then w else pass (write_header status) (record w { status = status })

-- `Write`.
unfoldable pub track_write : Body → Tracked → Tracked
unfolding track_header
track_write body w = pass (write body) (if w.status == 0 then track_header 200 w else w)

unfoldable pub track : Op → Tracked → Tracked
unfolding track_header track_write
track (set_header name value) w = pass (set_header name value) w
track (write_header status) w = track_header status w
track (write body) w = track_write body w

unfoldable pub track_all : List Op → Tracked → Tracked
track_all [] w = w
track_all (op ∷ ops) w = track_all ops (track op w)

abbrev pub header_ops : List (Text × Text) → List Op
header_ops [] = []
header_ops ((name, value) ∷ hs) = set_header name value ∷ header_ops hs

-- `writeJSON` and `writeProblem` as calls of the writer.
unfoldable pub response_ops : Response → List Op
response_ops r = header_ops r.headers ++ write_header r.status ∷ write r.body ∷ []

abbrev pub reply_ops : Reply → List Op
reply_ops (answered r) = response_ops r
reply_ops panicked = []

abbrev pub has_panicked : Reply → Bool
has_panicked (answered r) = false
has_panicked panicked = true

abbrev id_of : List Text → List ℕ → Text
id_of (id ∷ []) random = if visible_ascii id then id else hex_encode random
id_of _ random = hex_encode random

-- The request's own id, or a new one of 16 random bytes.
unfoldable pub request_id : List Text → List ℕ → Text
unfolding hex_encode
request_id ids random = id_of ids random

pub record LogEntry : Type 0 where
  pub request_id : Text
  pub method : Text
  pub route : Text
  pub status : ℕ

-- The headers that are set before the handler runs.
abbrev pub security_ops : Text → List Op
security_ops id =
    set_header (codes "X-Request-ID") id
    ∷ set_header (codes "X-Content-Type-Options") (codes "nosniff")
    ∷ []

-- The deferred function: a problem where the handler has panicked and has not written.
unfoldable pub recover_panic : Bool → Tracked → Tracked
recover_panic panics w =
    if panics && w.status == 0
    then track_all (response_ops (write_problem 500 [] (codes "internal_error"))) w
    else w

-- The calls of a handler, whether it panics behind them, and what the client and the log get.
unfoldable pub middleware : Request → List ℕ → List Op → Bool → List Op × LogEntry
middleware r random ops panics =
    let id = request_id r.request_ids random in
    let tracked =
      recover_panic panics (track_all ops (record { status = 0; passed = security_ops id })) in
    (
      tracked.passed,
      record {
        request_id = id;
        method = r.method;
        route = (route r.path).0;
        status = tracked.status;
      },
    )
