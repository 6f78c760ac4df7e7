-- ===== src/App/Config/Bounds.antt =====
-- The bounds that every loaded configuration keeps.
use fx_quotes.Prelude.{
  ℕ, ◌+◌, ◌*◌, ◌≤◌, ◌≡◌, refl, true, false, ◌||◌, Option, none, some, Result, ok, err, Holds,
  Holds-bind, Holds-ok, arith, ltb, if_cases,
}
use fx_quotes.Prelude.Int.{ℤ, pos, negsuc}
use fx_quotes.Text.{Text, codes, is_empty, trim_space}
use fx_quotes.App.Config.{
  millisecond, database_url, Library, Lookup, Config, ConfigError, bounded, bounded_duration,
  bounded_int, bad_duration, bad_int, value, validate, checked, is_database_url, is_provider_url,
  is_log_level, load, load_from_lookup, commit_margin, min_request_timeout, max_request_timeout,
  min_poll_interval, max_poll_interval, min_recovery_period, max_recovery_period, min_error_delay,
  max_error_delay, min_lease_duration, max_lease_duration, max_worker_count, max_attempts,
  max_active,
}
use fx_quotes.Usecase.Retry.{second, minute}
use fx_quotes.App.Config.Number.{atoi, itoa}

abbrev pub IsWithin : ℕ → ℕ → ℕ → Type 0
IsWithin low high n = (low ≤ n) × (n ≤ high)

-- The bounds of the numbers.
pub record IsBounded (config : Config) : Type 0 where
  pub provider_timeout : IsWithin min_request_timeout max_request_timeout config.provider_timeout
  pub read_timeout : IsWithin min_request_timeout max_request_timeout config.read_timeout
  pub write_timeout : IsWithin min_request_timeout max_request_timeout config.write_timeout
  pub request_timeout : IsWithin min_request_timeout max_request_timeout config.request_timeout
  pub poll_interval : IsWithin min_poll_interval max_poll_interval config.poll_interval
  pub recovery_interval : IsWithin min_recovery_period max_recovery_period config.recovery_interval
  pub worker_error_delay : IsWithin min_error_delay max_error_delay config.worker_error_delay
  pub lease_duration : IsWithin min_lease_duration max_lease_duration config.lease_duration
  pub shutdown_timeout : IsWithin min_request_timeout max_request_timeout config.shutdown_timeout
  pub worker_count : IsWithin 1 max_worker_count config.worker_count
  pub attempts : IsWithin 1 max_attempts config.max_attempts
  pub active : IsWithin 1 max_active config.max_active

-- What `validate` has checked.
pub record IsValid (library : Library) (config : Config) : Type 0 where
  pub margin : config.provider_timeout + commit_margin ≤ config.lease_duration
  pub listen_address : is_empty (trim_space config.listen_address) ≡ false
  pub database_url : is_database_url library config.database_url ≡ true
  pub provider_url : is_provider_url library config.provider_url ≡ true
  pub log_level : is_log_level config.log_level ≡ true

bounded-IsWithin :
    {E : Type 0} (e : E) (low high : ℕ) (o : Option ℤ)
    → Holds (IsWithin low high) (bounded e low high o)
unfolding Holds
bounded-IsWithin e low high none = tt
bounded-IsWithin e low high (some (negsuc n)) = tt
bounded-IsWithin e low high (some (pos n)) =
    if_cases (Holds (IsWithin low high)) (ltb n low || ltb high n) (err e) (ok n) (λ _. tt)
      (λ h. ground (arith, h))

duration-IsWithin :
    (library : Library) (lookup : Lookup) (key : Text) (fallback low high : ℕ)
    → Holds (IsWithin low high) (bounded_duration library lookup key fallback low high)
unfolding bounded_duration
duration-IsWithin library lookup key fallback low high =
    bounded-IsWithin (bad_duration key) low high
      (library.parse_duration (value lookup key (library.duration_string fallback)))

pub int-IsWithin :
    (lookup : Lookup) (key : Text) (fallback high : ℕ)
    → Holds (IsWithin 1 high) (bounded_int lookup key fallback high)
unfolding bounded_int
int-IsWithin lookup key fallback high =
    bounded-IsWithin (bad_int key) 1 high (atoi (value lookup key (itoa fallback)))

validate-IsValid :
    (library : Library) (config : Config) → validate library config ≡ none → IsValid library config
unfolding validate
validate-IsValid library config h = record {
  margin = ground (arith, h);
  listen_address = ground (arith, h);
  database_url = ground (arith, h);
  provider_url = ground (arith, h);
  log_level = ground (arith, h);
}

-- A configuration that `load` returns.
abbrev pub IsLoaded : Library → Config → Type 0
IsLoaded library config = IsBounded config × IsValid library config

Holds-none :
    {A : Type 0} (P : A → Type 0) (o : Option ConfigError) (a : A)
    → (o ≡ none → P a)
    → Holds P (elim o as (λ _. Result ConfigError A) [ none ↦ ok a | some e ↦ err e ])
unfolding Holds
Holds-none P none a h = h refl
Holds-none P (some e) a h = tt

checked-Holds :
    (library : Library) (config : Config)
    → IsBounded config
    → Holds (IsLoaded library) (checked library config)
unfolding checked
checked-Holds library config h =
    Holds-none (IsLoaded library) (validate library config) config
      (λ valid. (h, validate-IsValid library config valid))

abbrev Anything : Text → Type 0
Anything t = Unit

any : (r : Result ConfigError Text) → Holds Anything r
unfolding Holds
any (ok a) = tt
any (err e) = tt

load-Holds : (library : Library) (lookup : Lookup) → Holds (IsLoaded library) (load library lookup)
unfolding load
load-Holds library lookup =
    let P = IsLoaded library in
    let timeout = IsWithin min_request_timeout max_request_timeout in
    let duration = duration-IsWithin library lookup in
    Holds-bind Anything P _ _ (any (database_url library lookup)) (λ database _.
      Holds-bind timeout P _ _
        (duration (codes "FX_QUOTES_PROVIDER_TIMEOUT") (5 * second) min_request_timeout
          max_request_timeout)
        (λ a ha.
          Holds-bind timeout P _ _
            (duration (codes "FX_QUOTES_HTTP_READ_TIMEOUT") (10 * second) min_request_timeout
              max_request_timeout)
            (λ b hb.
              Holds-bind timeout P _ _
                (duration (codes "FX_QUOTES_HTTP_WRITE_TIMEOUT") (10 * second) min_request_timeout
                  max_request_timeout)
                (λ c hc.
                  Holds-bind timeout P _ _
                    (duration (codes "FX_QUOTES_REQUEST_TIMEOUT") (5 * second) min_request_timeout
                      max_request_timeout)
                    (λ d hd.
                      Holds-bind (IsWithin min_poll_interval max_poll_interval) P _ _
                        (duration (codes "FX_QUOTES_POLL_INTERVAL") (500 * millisecond)
                          min_poll_interval max_poll_interval)
                        (λ e he.
                          Holds-bind (IsWithin min_recovery_period max_recovery_period) P _ _
                            (duration (codes "FX_QUOTES_RECOVERY_INTERVAL") minute
                              min_recovery_period max_recovery_period)
                            (λ f hf.
                              Holds-bind (IsWithin min_error_delay max_error_delay) P _ _
                                (duration (codes "FX_QUOTES_WORKER_ERROR_DELAY") second
                                  min_error_delay max_error_delay)
                                (λ g hg.
                                  Holds-bind (IsWithin min_lease_duration max_lease_duration) P _ _
                                    (duration (codes "FX_QUOTES_LEASE_DURATION") (15 * second)
                                      min_lease_duration max_lease_duration)
                                    (λ h hh.
                                      Holds-bind timeout P _ _
                                        (duration (codes "FX_QUOTES_SHUTDOWN_TIMEOUT") (15 * second)
                                          min_request_timeout max_request_timeout)
                                        (λ i hi.
                                          Holds-bind (IsWithin 1 max_worker_count) P _ _
                                            (int-IsWithin lookup (codes "FX_QUOTES_WORKER_COUNT") 2
                                              max_worker_count)
                                            (λ j hj.
                                              Holds-bind (IsWithin 1 max_attempts) P _ _
                                                (int-IsWithin lookup
                                                  (codes "FX_QUOTES_MAX_ATTEMPTS") 3 max_attempts)
                                                (λ k hk.
                                                  Holds-bind (IsWithin 1 max_active) P _ _
                                                    (int-IsWithin lookup
                                                      (codes "FX_QUOTES_MAX_ACTIVE") 100 max_active)
                                                    (λ l hl.
                                                      checked-Holds library
                                                        (record {
                                                          listen_address =
                                                            value lookup
                                                            (codes "FX_QUOTES_LISTEN_ADDR")
                                                            (codes "127.0.0.1:8080");
                                                          database_url = database;
                                                          provider_url =
                                                            value lookup
                                                            (codes "FX_QUOTES_PROVIDER_URL")
                                                            (codes "https://api.frankfurter.dev");
                                                          provider_timeout = a;
                                                          read_timeout = b;
                                                          write_timeout = c;
                                                          request_timeout = d;
                                                          worker_count = j;
                                                          poll_interval = e;
                                                          recovery_interval = f;
                                                          worker_error_delay = g;
                                                          lease_duration = h;
                                                          max_attempts = k;
                                                          max_active = l;
                                                          log_level =
                                                            value lookup
                                                            (codes "FX_QUOTES_LOG_LEVEL")
                                                            (codes "info");
                                                          shutdown_timeout = i;
                                                        })
                                                        (record {
                                                          provider_timeout = ha;
                                                          read_timeout = hb;
                                                          write_timeout = hc;
                                                          request_timeout = hd;
                                                          poll_interval = he;
                                                          recovery_interval = hf;
                                                          worker_error_delay = hg;
                                                          lease_duration = hh;
                                                          shutdown_timeout = hi;
                                                          worker_count = hj;
                                                          attempts = hk;
                                                          active = hl;
                                                        }))))))))))))))

-- A configuration that `LoadFromLookup` returns, whatever the environment, keeps the declared
-- bounds of every number, its lease covers the timeout of the provider and the margin for the
-- commit, its address is not blank, its URLs have the required form, and its level is a known one.
pub load_from_lookup-IsLoaded :
    (library : Library) (lookup : Option Lookup) (config : Config)
    → load_from_lookup library lookup ≡ ok config
    → IsLoaded library config
unfolding load_from_lookup Holds
load_from_lookup-IsLoaded library none config h = ground (arith, h)
load_from_lookup-IsLoaded library (some lookup) config h =
    Holds-ok (IsLoaded library) (load library lookup) config h (load-Holds library lookup)
