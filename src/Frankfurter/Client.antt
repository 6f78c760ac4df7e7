-- ===== src/Frankfurter/Client.antt =====
-- internal/adapter/frankfurter/provider.go: `New` and the check of the base URL. `url.Parse` is an
-- argument.
use fx_quotes.Prelude.{
  ℕ, zero, suc, Bool, true, false, not, ◌&&◌, ◌||◌, Option, none, some, if◌then◌else◌,
}
use fx_quotes.Prelude.Int.{ℤ, pos, negsuc}
use fx_quotes.Text.{Text, codes, text_eq, is_empty}
use fx_quotes.Text.Url.{Url}

pub record Config : Type 0 where
  pub base_url : Text
  pub timeout : ℤ

-- The timeout is positive.
pub record Provider : Type 0 where
  pub base_url : Url
  pub timeout : ℕ

abbrev pub default_base_url : Text
default_base_url = codes "https://api.frankfurter.dev"

unfoldable pub valid_base_url : Url → Bool
unfolding text_eq
valid_base_url base =
    (text_eq base.scheme (codes "http") || text_eq base.scheme (codes "https"))
    && not (is_empty base.host)
    && not base.has_user
    && is_empty base.raw_query
    && not base.force_query
    && is_empty base.fragment

abbrev pub provider_of : Option Url → ℕ → Option Provider
provider_of none timeout = none
provider_of (some base) timeout =
    if valid_base_url base then some (record { base_url = base; timeout = timeout }) else none

-- `New`; `client` tells that there is one.
unfoldable pub new : (Text → Option Url) → Bool → Config → Option Provider
unfolding valid_base_url
new parse_url false config = none
new parse_url true config = elim config.timeout [
  | pos zero ↦ none
  | pos (suc n) ↦
      provider_of
        (parse_url (if is_empty config.base_url then default_base_url else config.base_url)) (suc n)
  | negsuc n ↦ none
]
