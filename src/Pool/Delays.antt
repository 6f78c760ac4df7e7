-- ===== src/Pool/Delays.antt =====
-- The tokens and the pauses of the pool.
use fx_quotes.Prelude.{
  ℕ, zero, suc, ◌+◌, ◌≤◌, ◌<◌, ◌≡◌, refl, min, max, Bool, true, false, List, some, Result, ok, err,
  arith, length,
}
use fx_quotes.Entity.Update.{QuoteUpdate}
use fx_quotes.Usecase.Commands.{StoreError}
use fx_quotes.Prelude.Int.{pos}
use fx_quotes.Pool.{Config, Pool, positive, new, notify, notify_times, after_recover}

positive-pos : (n : ℕ) → 0 < n → positive (pos n) ≡ some n
positive-pos zero h = ground (arith, h)
positive-pos (suc n) h = refl

-- `New` takes every configuration of positive numbers.
pub new-positive :
    (pool : Pool)
    → 0 < pool.concurrency
    → 0 < pool.lease_duration
    → 0 < pool.poll_interval
    → 0 < pool.recovery_interval
    → 0 < pool.error_delay
    → let config : Config = record {
      concurrency = pos pool.concurrency;
      lease_duration = pos pool.lease_duration;
      poll_interval = pos pool.poll_interval;
      recovery_interval = pos pool.recovery_interval;
      error_delay = pos pool.error_delay;
    } in
      new true config ≡ some pool
unfolding new
new-positive pool h0 h1 h2 h3 h4 = rw (
  positive-pos pool.concurrency h0,
  positive-pos pool.lease_duration h1,
  positive-pos pool.poll_interval h2,
  positive-pos pool.recovery_interval h3,
  positive-pos pool.error_delay h4,
)

pub notify_bound : (pool : Pool) (t : ℕ) → t ≤ pool.concurrency → notify pool t ≤ pool.concurrency
unfolding notify
notify_bound pool t h = ground arith

notify_times-eq :
    (pool : Pool) (n t : ℕ)
    → t ≤ pool.concurrency
    → notify_times pool n t ≡ min pool.concurrency (t + n)
unfolding notify_times notify
notify_times-eq pool zero t h = omega arith
notify_times-eq pool (suc n) t h =
    ground (arith, notify_times-eq pool n (notify pool t), notify_bound pool t h)

-- With at most as many tokens as workers, a pass of recovery is followed by a pause of at least
-- the shorter of the two intervals, and of at most the recovery interval or, where that is
-- longer, the error delay; and it takes no token away and leaves at most as many as there are
-- workers.
pub after_recover_bounds :
    (pool : Pool) (cancelled : Bool) (result : Result StoreError (List QuoteUpdate)) (t : ℕ)
    → t ≤ pool.concurrency
    → let (delay, tokens) = after_recover pool cancelled result t in
      (min pool.poll_interval pool.recovery_interval ≤ delay)
      × (delay ≤ max pool.recovery_interval pool.error_delay)
      × (t ≤ tokens)
      × (tokens ≤ pool.concurrency)
unfolding after_recover
after_recover_bounds pool true result t h = omega arith
after_recover_bounds pool false (err e) t h = omega arith
after_recover_bounds pool false (ok updates) t h =
    let same = notify_times-eq pool (min (length updates) pool.concurrency) t h in
    ground (arith, same)
