-- ===== src/Pool/Log.antt =====
-- `logError` of internal/adapter/worker/pool.go, and `logFailure` of cmd/fx-quotes/main.go: the
-- fields that they log of an error.
pub mod Fields
use fx_quotes.Prelude.{
  ℕ, ◌≡◌, Bool, true, ◌&&◌, ◌||◌, List, [], ◌∷◌, ◌++◌, Option, none, some, leb, ◌==◌, if◌then◌else◌,
}
use fx_quotes.Text.{Text, codes, byte_length, is_digit}
use fx_quotes.Pool.GoError.{GoError, Link, links, any_link, first_state, root}

unfoldable pub error_kind : GoError → Text
error_kind e =
    if any_link (λ l. l.is_deadline) (links e)
    then codes "deadline_exceeded"
    else if any_link (λ l. l.is_canceled) (links e)
    then codes "canceled"
    else codes "internal"

abbrev pub is_state_code : ℕ → Bool
is_state_code c = is_digit c || (leb b'A' c && leb c b'Z')

unfoldable pub all_state_codes : Text → Bool
all_state_codes [] = true
all_state_codes (c ∷ s) = is_state_code c && all_state_codes s

unfoldable pub valid_state : Text → Bool
valid_state code = byte_length code == 5 && all_state_codes code

unfoldable pub state_field : Option Text → List (Text × Text)
state_field none = []
state_field (some code) = if valid_state code then (codes "sqlstate", code) ∷ [] else []

-- The fields of `logFailure`.
unfoldable pub failure_fields : GoError → List (Text × Text)
failure_fields e =
    (codes "error_kind", error_kind e) ∷ (codes "error_type", (root e).type_name) ∷ []

-- The fields of `logError`.
unfoldable pub error_fields : GoError → List (Text × Text)
error_fields e =
    (codes "outcome", codes "error")
    ∷ (codes "error_kind", error_kind e)
    ∷ (codes "error_type", (root e).type_name)
    ∷ state_field (first_state (links e))
