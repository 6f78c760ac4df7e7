-- ===== src/App/Build/Loaded.antt =====
-- A loaded configuration is one that the parts of the service accept.
use fx_quotes.Prelude.{
  ℕ, zero, suc, ◌+◌, ◌≤◌, ◌<◌, ◌≡◌, refl, true, false, [], ◌∷◌, Option, some, ok, arith,
}
use fx_quotes.Prelude.Int.{pos}
use fx_quotes.Text.{Text, is_empty}
use fx_quotes.Text.Url.{Url}
use fx_quotes.Usecase.Retry.{second, minute}
use fx_quotes.Frankfurter.Client.{Provider, valid_base_url}
use fx_quotes.Frankfurter.Client
use fx_quotes.Pool.Delays.{new-positive}
use fx_quotes.App.Config.{Library, Lookup, Config, is_provider_url, load_from_lookup}
use fx_quotes.App.Config.Bounds.{IsLoaded, load_from_lookup-IsLoaded}
use fx_quotes.App.Build.{
  Application, Outcomes, pool_opened, max_conns, server_of, assemble, build, build_with,
}

abbrev pub all_well : Outcomes
all_well = record { logger = true; parsed = true; opened = true; migrated = true }

valid_base_url_lem :
    (library : Library) (text : Text) (url : Url)
    → library.parse_url text ≡ some url
    → is_provider_url library text ≡ true
    → url.force_query ≡ false
    → valid_base_url url ≡ true
unfolding valid_base_url
valid_base_url_lem library text url parsed h forced =
    let h' = rw (parsed, is_provider_url) at h in ground (arith, h', forced)

non_empty :
    (library : Library) (text : Text)
    → is_provider_url library [] ≡ false
    → is_provider_url library text ≡ true
    → is_empty text ≡ false
non_empty library [] blank h = ground (arith, blank, h)
non_empty library (c ∷ s) blank h = refl

new_provider :
    (parse_url : Text → Option Url) (text : Text) (timeout : ℕ) (url : Url)
    → 0 < timeout
    → is_empty text ≡ false
    → parse_url text ≡ some url
    → valid_base_url url ≡ true
    → Client.new parse_url true (record { base_url = text; timeout = pos timeout })
      ≡ some (record { base_url = url; timeout = timeout })
unfolding Client.new
new_provider parse_url text zero url h filled parsed valid = ground (arith, h)
new_provider parse_url text (suc n) url h filled parsed valid = rw (filled, parsed, valid)

-- The parts that `Build` makes of a loaded configuration.
abbrev pub application_of : Config → Url → Application
application_of config url = record {
  config = config;
  max_conns = max_conns config.worker_count;
  provider = record { base_url = url; timeout = config.provider_timeout };
  max_attempts = config.max_attempts;
  policy = record { initial = pos second; maximum = pos minute };
  max_active = config.max_active;
  workers = record {
    concurrency = config.worker_count;
    lease_duration = config.lease_duration;
    poll_interval = config.poll_interval;
    recovery_interval = config.recovery_interval;
    error_delay = config.worker_error_delay;
  };
  server = server_of config;
}

assemble-loaded :
    (library : Library) (config : Config) (url : Url)
    → IsLoaded library config
    → is_provider_url library [] ≡ false
    → library.parse_url config.provider_url ≡ some url
    → url.force_query ≡ false
    → assemble library true config ≡ ok (application_of config url)
unfolding assemble
assemble-loaded library config url (bounded, valid) blank parsed forced =
    let application = application_of config url in
    rw (
      new_provider library.parse_url config.provider_url config.provider_timeout url
          (omega (arith, bounded.provider_timeout))
          (non_empty library config.provider_url blank valid.provider_url) parsed
          (valid_base_url_lem library config.provider_url url parsed valid.provider_url forced),
      new-positive application.workers (omega (arith, bounded.worker_count))
          (omega (arith, bounded.lease_duration)) (omega (arith, bounded.poll_interval))
          (omega (arith, bounded.recovery_interval)) (omega (arith, bounded.worker_error_delay)),
    )

-- With a configuration that `LoadFromLookup` returns, a database that can be reached and migrated,
-- and a provider URL without a `?`, `Build` succeeds and leaves the pool of connections open: its
-- workers and its provider keep the numbers of the configuration, a lease lasts at least as long as a
-- call of the provider and the margin of a second together, and the number of connections that the
-- pool may open (`MaxConns`) is from 8 to 16.
pub build-loaded :
    (library : Library) (lookup : Option Lookup) (config : Config) (url : Url)
    → load_from_lookup library lookup ≡ ok config
    → is_provider_url library [] ≡ false
    → library.parse_url config.provider_url ≡ some url
    → url.force_query ≡ false
    → let application = application_of config url in
      (build library all_well config ≡ (ok application, pool_opened ∷ []))
      × (application.provider.timeout + second ≤ application.workers.lease_duration)
      × (8 ≤ application.max_conns)
      × (application.max_conns ≤ 16)
unfolding build build_with max_conns
build-loaded library lookup config url h blank parsed forced =
    let (bounded, valid) = load_from_lookup-IsLoaded library lookup config h in
    (
      rw (assemble-loaded library config url (bounded, valid) blank parsed forced),
      omega (arith, valid.margin),
      omega arith,
      omega arith,
    )
