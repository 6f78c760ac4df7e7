-- ===== src/App/Config.antt =====
-- internal/app/config/config.go: the settings of the service from the environment. Durations are
-- nanoseconds. What the code uses of `net/url`, of `net.ParseIP` and of the durations of `time` is
-- the parameter `Library`.
pub mod Number
pub mod Bounds
pub mod Tls
use fx_quotes.Prelude.{
  ℕ, zero, suc, ◌+◌, ◌-◌, ◌*◌, ◌/◌, ◌%◌, ◌≡◌, Bool, true, false, not, ◌&&◌, ◌||◌, List, [], ◌∷◌,
  ◌++◌, Option, none, some, Result, ok, err, ◌>>=◌, ltb, leb, if◌then◌else◌,
}
use fx_quotes.Prelude.Int.{ℤ, pos, negsuc}
use fx_quotes.Text.{Text, codes, text_eq, is_empty, trim_space, contains, contains_any, split_two}
use fx_quotes.Text.Url.{Url}
use fx_quotes.Usecase.Retry.{second, minute}
use fx_quotes.App.Config.Number.{atoi, itoa}

-- `url_string user password host path raw_path raw_query` is the `String` of a `postgres` URL;
-- `loopback` is `IsLoopback` of what `ParseIP` reads.
pub record Library : Type 0 where
  pub parse_duration : Text → Option ℤ
  pub duration_string : ℕ → Text
  pub parse_url : Text → Option Url
  pub url_string : Text → Text → Text → Text → Text → Text → Text
  pub path_escape : Text → Text
  pub loopback : Text → Option Bool

-- `lookup`: none for a variable that is not present.
abbrev pub Lookup : Type 0
Lookup = Text → Option Text

abbrev pub millisecond : ℕ
millisecond = 1000000

abbrev pub commit_margin : ℕ
commit_margin = second

abbrev pub min_request_timeout : ℕ
min_request_timeout = 10 * millisecond

abbrev pub max_request_timeout : ℕ
max_request_timeout = 5 * minute

abbrev pub min_poll_interval : ℕ
min_poll_interval = 10 * millisecond

abbrev pub max_poll_interval : ℕ
max_poll_interval = minute

abbrev pub min_recovery_period : ℕ
min_recovery_period = 100 * millisecond

abbrev pub max_recovery_period : ℕ
max_recovery_period = 60 * minute

abbrev pub min_error_delay : ℕ
min_error_delay = 10 * millisecond

abbrev pub max_error_delay : ℕ
max_error_delay = 30 * second

abbrev pub min_lease_duration : ℕ
min_lease_duration = second

abbrev pub max_lease_duration : ℕ
max_lease_duration = 10 * minute

abbrev pub max_worker_count : ℕ
max_worker_count = 64

abbrev pub max_attempts : ℕ
max_attempts = 10

abbrev pub max_active : ℕ
max_active = 10000

-- The numbers are those that the two readers below let pass, which are positive.
pub record Config : Type 0 where
  pub listen_address : Text
  pub database_url : Text
  pub provider_url : Text
  pub provider_timeout : ℕ
  pub read_timeout : ℕ
  pub write_timeout : ℕ
  pub request_timeout : ℕ
  pub worker_count : ℕ
  pub poll_interval : ℕ
  pub recovery_interval : ℕ
  pub worker_error_delay : ℕ
  pub lease_duration : ℕ
  pub max_attempts : ℕ
  pub max_active : ℕ
  pub log_level : Text
  pub shutdown_timeout : ℕ

pub data ConfigError : Type 0 where
  lookup_required blank_listen_address blank_database_url bad_database_url bad_provider_url
        short_lease bad_log_level bad_database_components :
      ConfigError
  bad_duration bad_int : Text → ConfigError

unfoldable pub value : Lookup → Text → Text → Text
value lookup key fallback = elim (lookup key) [ none ↦ fallback | some raw ↦ raw ]

-- A number that is at least `minimum`, a positive one, and at most `maximum`.
abbrev pub bounded : {E : Type 0} → E → ℕ → ℕ → Option ℤ → Result E ℕ
bounded e minimum maximum none = err e
bounded e minimum maximum (some (negsuc n)) = err e
bounded e minimum maximum (some (pos n)) = if ltb n minimum || ltb maximum n then err e else ok n

unfoldable pub bounded_duration : Library → Lookup → Text → ℕ → ℕ → ℕ → Result ConfigError ℕ
unfolding value
bounded_duration library lookup key fallback minimum maximum =
    bounded (bad_duration key) minimum maximum
      (library.parse_duration (value lookup key (library.duration_string fallback)))

unfoldable pub bounded_int : Lookup → Text → ℕ → ℕ → Result ConfigError ℕ
unfolding value atoi itoa
bounded_int lookup key fallback maximum =
    bounded (bad_int key) 1 maximum (atoi (value lookup key (itoa fallback)))

-- `net.JoinHostPort`.
abbrev pub join_host_port : Text → Text → Text
join_host_port host port =
    if contains b':' host
    then codes "[" ++ host ++ codes "]:" ++ port
    else host ++ codes ":" ++ port

abbrev pub is_some_true : Option Bool → Bool
is_some_true none = false
is_some_true (some b) = b

-- `sslMode` of `databaseURL`.
unfoldable pub ssl_mode : Library → Lookup → Text → Text
unfolding value
ssl_mode library lookup host =
    let trusted = value lookup (codes "FX_QUOTES_DATABASE_INSECURE_HOST") [] in
    if is_some_true (library.loopback host) || (not (is_empty trusted) && text_eq host trusted)
    then codes "disable"
    else codes "verify-full"

unfoldable pub valid_components : Text → Text → Text → Bool
unfolding contains_any trim_space
valid_components host user name = not (
    is_empty (trim_space host)
    || contains_any host (codes "/?#@%[]")
    || is_empty user
    || is_empty name)

-- `databaseURL` where the URL is not given.
unfoldable pub composed_url : Library → Lookup → Result ConfigError Text
unfolding value ssl_mode valid_components bounded_int itoa
composed_url library lookup = do
  let host = value lookup (codes "FX_QUOTES_DATABASE_HOST") (codes "127.0.0.1")
  port ← bounded_int lookup (codes "FX_QUOTES_DATABASE_PORT") 5432 65535
  let user = value lookup (codes "FX_QUOTES_DATABASE_USER") (codes "fxquotes")
  let password = value lookup (codes "FX_QUOTES_DATABASE_PASSWORD") (codes "fxquotes")
  let name = value lookup (codes "FX_QUOTES_DATABASE_NAME") (codes "fxquotes")
  if not (valid_components host user name)
      then err bad_database_components
      else ok (
          library.url_string user password (join_host_port host (itoa port)) (codes "/" ++ name)
            (codes "/" ++ library.path_escape name)
            (codes "sslmode=" ++ ssl_mode library lookup host))

unfoldable pub database_url : Library → Lookup → Result ConfigError Text
unfolding composed_url
database_url library lookup = elim (lookup (codes "FX_QUOTES_DATABASE_URL")) [
  | some explicit ↦ ok explicit
  | none ↦ composed_url library lookup
]

abbrev pub is_database_url : Library → Text → Bool
is_database_url library url =
    let scheme = (split_two b':' url).0 in
    elim (library.parse_url url) [
      | none ↦ false
      | some parsed ↦
          (text_eq scheme (codes "postgres") || text_eq scheme (codes "postgresql"))
          && not (is_empty parsed.host)
    ]

abbrev pub is_provider_url : Library → Text → Bool
is_provider_url library url = elim (library.parse_url url) [
  | none ↦ false
  | some parsed ↦
      (text_eq parsed.scheme (codes "http") || text_eq parsed.scheme (codes "https"))
      && not (is_empty parsed.host)
      && not parsed.has_user
      && is_empty parsed.raw_query
      && is_empty parsed.fragment
]

abbrev pub is_log_level : Text → Bool
is_log_level level =
    text_eq level (codes "debug")
    || text_eq level (codes "info")
    || text_eq level (codes "warn")
    || text_eq level (codes "error")

-- `validate`: the first complaint.
unfoldable pub validate : Library → Config → Option ConfigError
unfolding trim_space split_two text_eq
validate library config =
    if is_empty (trim_space config.listen_address)
    then some blank_listen_address
    else if is_empty (trim_space config.database_url)
    then some blank_database_url
    else if not (is_database_url library config.database_url)
    then some bad_database_url
    else if not (is_provider_url library config.provider_url)
    then some bad_provider_url
    else if ltb config.lease_duration commit_margin
        || ltb (config.lease_duration - commit_margin) config.provider_timeout
    then some short_lease
    else if not (is_log_level config.log_level)
    then some bad_log_level
    else none

unfoldable pub checked : Library → Config → Result ConfigError Config
unfolding validate
checked library config = elim (validate library config) [ none ↦ ok config | some e ↦ err e ]

-- `LoadFromLookup` of a `lookup` that is there.
unfoldable pub load : Library → Lookup → Result ConfigError Config
unfolding value bounded_duration bounded_int database_url checked
load library lookup = do
  let duration = bounded_duration library lookup
  let listen_address = value lookup (codes "FX_QUOTES_LISTEN_ADDR") (codes "127.0.0.1:8080")
  let provider_url =
      value lookup (codes "FX_QUOTES_PROVIDER_URL") (codes "https://api.frankfurter.dev")
  let log_level = value lookup (codes "FX_QUOTES_LOG_LEVEL") (codes "info")
  database ← database_url library lookup
  provider_timeout ←
      duration (codes "FX_QUOTES_PROVIDER_TIMEOUT") (5 * second) min_request_timeout
        max_request_timeout
  read_timeout ←
      duration (codes "FX_QUOTES_HTTP_READ_TIMEOUT") (10 * second) min_request_timeout
        max_request_timeout
  write_timeout ←
      duration (codes "FX_QUOTES_HTTP_WRITE_TIMEOUT") (10 * second) min_request_timeout
        max_request_timeout
  request_timeout ←
      duration (codes "FX_QUOTES_REQUEST_TIMEOUT") (5 * second) min_request_timeout
        max_request_timeout
  poll_interval ←
      duration (codes "FX_QUOTES_POLL_INTERVAL") (500 * millisecond) min_poll_interval
        max_poll_interval
  recovery_interval ←
      duration (codes "FX_QUOTES_RECOVERY_INTERVAL") minute min_recovery_period max_recovery_period
  worker_error_delay ←
      duration (codes "FX_QUOTES_WORKER_ERROR_DELAY") second min_error_delay max_error_delay
  lease_duration ←
      duration (codes "FX_QUOTES_LEASE_DURATION") (15 * second) min_lease_duration
        max_lease_duration
  shutdown_timeout ←
      duration (codes "FX_QUOTES_SHUTDOWN_TIMEOUT") (15 * second) min_request_timeout
        max_request_timeout
  worker_count ← bounded_int lookup (codes "FX_QUOTES_WORKER_COUNT") 2 max_worker_count
  attempts ← bounded_int lookup (codes "FX_QUOTES_MAX_ATTEMPTS") 3 max_attempts
  active ← bounded_int lookup (codes "FX_QUOTES_MAX_ACTIVE") 100 max_active
  let config : Config = record {
    listen_address = listen_address;
    database_url = database;
    provider_url = provider_url;
    provider_timeout = provider_timeout;
    read_timeout = read_timeout;
    write_timeout = write_timeout;
    request_timeout = request_timeout;
    worker_count = worker_count;
    poll_interval = poll_interval;
    recovery_interval = recovery_interval;
    worker_error_delay = worker_error_delay;
    lease_duration = lease_duration;
    max_attempts = attempts;
    max_active = active;
    log_level = log_level;
    shutdown_timeout = shutdown_timeout;
  }
  checked library config

unfoldable pub load_from_lookup : Library → Option Lookup → Result ConfigError Config
unfolding load
load_from_lookup library none = err lookup_required
load_from_lookup library (some lookup) = load library lookup
