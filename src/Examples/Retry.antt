-- ===== src/Examples/Retry.antt =====
-- The retry policy of the application at its third attempt.
use fx_quotes.Prelude.{◌-◌, ◌*◌, ◌/◌, ◌^◌, ◌≤◌, ℕ, ◌<◌, ◌≡◌, arith, min, max}
use fx_quotes.Prelude.Int.{pos}
use fx_quotes.Text.{codes}
use fx_quotes.Usecase.Retry.{
  RetryPolicy, second, minute, positive_or, grow_int64, backoff_of, delay,
}
use fx_quotes.Usecase.Retry.Backoff.{grow_int64-pow, delay_bounds}

abbrev app_policy : RetryPolicy
app_policy = record { initial = pos second; maximum = pos minute }

-- The largest duration there is.
abbrev longest : ℕ
longest = 0x7fff_ffff_ffff_ffff

abbrev long_policy : RetryPolicy
long_policy = record { initial = pos second; maximum = pos longest }

longest-fits : positive_or (pos longest) minute < 2 ^ 63
unfolding positive_or
longest-fits = omega arith

grow_int64-pow_example :
    let initial = positive_or (pos second) second in
    let maximum = positive_or (pos longest) minute in
    let backoff = grow_int64 (60 - 1) maximum (min initial maximum) in
    (backoff ≡ min maximum (min initial maximum * 2 ^ (60 - 1)))
    × (backoff ≡ backoff_of long_policy 60)
grow_int64-pow_example = grow_int64-pow long_policy 60 longest-fits

delay_bounds_example :
    let d = delay app_policy (codes "0b1c") 3 (pos 7) in
    (1 ≤ d)
    × (d ≤ positive_or (pos minute) minute)
    × (backoff_of app_policy 3 / 2 ≤ d)
    × (min (positive_or (pos minute) minute) 7 ≤ d)
    × (d ≤ max (backoff_of app_policy 3) 7)
delay_bounds_example = delay_bounds app_policy (codes "0b1c") 3 (pos 7)
