-- ===== src/App/Config/Tls.antt =====
-- When the connection to the database may go without TLS.
use fx_quotes.Prelude.{
  ℕ, ◌≡◌, ◌≢◌, refl, sym, ap, ◌∙◌, Bool, true, not, ◌&&◌, ◌⊎◌, inl, inr, [], ◌∷◌, ◌++◌, Option,
  none, some, Result, ok, err, Holds, Holds-bind, Holds-ok, arith, if_cases, if_both, ||-either,
}
use fx_quotes.Text.{Text, codes, text_eq, is_empty}
use fx_quotes.Text.Laws.{text_eq_iff}
use fx_quotes.App.Config.{
  Library, Lookup, ConfigError, bad_database_components, value, is_some_true, ssl_mode,
  join_host_port, composed_url, database_url,
}
use fx_quotes.App.Config.Number.{itoa}
use fx_quotes.App.Config.Bounds.{IsWithin, int-IsWithin}

-- The certificate of the host is verified, or the host is an address of this machine or the one
-- host that the operator has named.
pub IsSecured : Library → Lookup → Text → Text → Type 0
unfolding value
IsSecured library lookup host mode =
    (mode ≡ codes "verify-full")
    ⊎ ((mode ≡ codes "disable")
        × ((library.loopback host ≡ some true)
            ⊎ ((host ≢ []) × (lookup (codes "FX_QUOTES_DATABASE_INSECURE_HOST") ≡ some host))))

is_some_true_lem : (o : Option Bool) → is_some_true o ≡ true → o ≡ some true
is_some_true_lem none h = ground (arith, h)
is_some_true_lem (some b) h = ap some h

named_lem :
    (named : Option Text) (host : Text)
    → let trusted : Text = elim named [ none ↦ [] | some raw ↦ raw ] in
      (not (is_empty trusted) && text_eq host trusted) ≡ true → (host ≢ []) × (named ≡ some host)
named_lem none host h = ground (arith, h)
named_lem (some []) host h = ground (arith, h)
named_lem (some (c ∷ s)) host h =
    let same = (text_eq_iff host (c ∷ s)).0 h in
    (λ none_given. ground (arith, sym same ∙ none_given), ap some (sym same))

ssl_mode-IsSecured :
    (library : Library) (lookup : Lookup) (host : Text)
    → IsSecured library lookup host (ssl_mode library lookup host)
unfolding ssl_mode IsSecured value
ssl_mode-IsSecured library lookup host =
    if_cases (IsSecured library lookup host) _ (codes "disable") (codes "verify-full")
      (λ h. inr (
        refl,
        elim (||-either _ _ h) [
          | inl here ↦ inl (is_some_true_lem (library.loopback host) here)
          | inr same ↦ inr (named_lem (lookup (codes "FX_QUOTES_DATABASE_INSECURE_HOST")) host same)
        ],
      ))
      (λ h. inl refl)

-- A URL put together from the parts of the environment.
pub IsComposed : Library → Lookup → Text → Type 0
unfolding value itoa
IsComposed library lookup url =
    let host = value lookup (codes "FX_QUOTES_DATABASE_HOST") (codes "127.0.0.1") in
    let user = value lookup (codes "FX_QUOTES_DATABASE_USER") (codes "fxquotes") in
    let password = value lookup (codes "FX_QUOTES_DATABASE_PASSWORD") (codes "fxquotes") in
    let name = value lookup (codes "FX_QUOTES_DATABASE_NAME") (codes "fxquotes") in
    (port : ℕ) × (mode : Text) × IsWithin 1 65535 port
    × IsSecured library lookup host mode
    × (url
        ≡ library.url_string user password (join_host_port host (itoa port)) (codes "/" ++ name)
            (codes "/" ++ library.path_escape name) (codes "sslmode=" ++ mode))

composed_url-Holds :
    (library : Library) (lookup : Lookup)
    → Holds (IsComposed library lookup) (composed_url library lookup)
unfolding composed_url IsComposed Holds
composed_url-Holds library lookup =
    let host = value lookup (codes "FX_QUOTES_DATABASE_HOST") (codes "127.0.0.1") in
    let P = IsComposed library lookup in
    Holds-bind (IsWithin 1 65535) P _ _
      (int-IsWithin lookup (codes "FX_QUOTES_DATABASE_PORT") 5432 65535)
      (λ port within.
        if_both (Holds P) _ (err bad_database_components) (ok _) tt (
          port,
          ssl_mode library lookup host,
          within,
          ssl_mode-IsSecured library lookup host,
          refl,
        ))

-- Where no database URL is given, the loaded one is put together from the host, the port, which is
-- from 1 to 65535, the user, the password and the name of the environment, and it asks for a
-- verified TLS certificate, unless the host is a loopback address or is the host that
-- FX_QUOTES_DATABASE_INSECURE_HOST names.
pub database_url-IsComposed :
    (library : Library) (lookup : Lookup) (url : Text)
    → lookup (codes "FX_QUOTES_DATABASE_URL") ≡ none
    → database_url library lookup ≡ ok url
    → IsComposed library lookup url
unfolding database_url
database_url-IsComposed library lookup url absent h =
    Holds-ok (IsComposed library lookup) (composed_url library lookup) url
      (sym (
          ap
            (λ o. elim o as (λ _. Result ConfigError Text) [
              | some explicit ↦ ok explicit
              | none ↦ composed_url library lookup
            ])
            absent)
        ∙ h)
      (composed_url-Holds library lookup)
