-- ===== src/Text/Url.antt =====
-- What the program reads of a parsed URL of `net/url`.
use fx_quotes.Prelude.{Bool}
use fx_quotes.Text.{Text}

-- `has_user`: `User` is not nil.
pub record Url : Type 0 where
  pub scheme : Text
  pub host : Text
  pub has_user : Bool
  pub raw_query : Text
  pub force_query : Bool
  pub fragment : Text
