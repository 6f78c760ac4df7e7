-- ===== src/Usecase/Retry/Backoff.antt =====
-- The growth of the delay, and its bounds.
use native.Mathlib.Nat.{pow-suc}
use fx_quotes.Prelude.{
  ℕ, zero, suc, ◌+◌, ◌-◌, ◌*◌, ◌/◌, ◌%◌, ◌^◌, ◌≤◌, ◌<◌, ◌≡◌, refl, ◌∙◌, min, max, arith,
}
use fx_quotes.Prelude.Int.{ℤ, pos, negsuc, pos_part}
use fx_quotes.Text.{Text}
use fx_quotes.Usecase.Retry.{
  RetryPolicy, nanosecond, second, minute, positive_or, grow, grow_int64, jitter_hash, max_hint,
  backoff_of, delay,
}

pow_pos : (n : ℕ) → 1 ≤ 2 ^ n
pow_pos zero = omega arith
pow_pos (suc n) = omega (arith, pow-suc 2 n, pow_pos n)

le-mul : (b p : ℕ) → 1 ≤ p → b ≤ b * p
le-mul b p h = grind arith

-- The three cases of a round, where `p` is the power for the rounds behind it.
cap_full : (m b p : ℕ) → 1 ≤ p → b ≤ m → m / 2 < b → min m (m * p) ≡ min m (b * (p * 2))
cap_full m b p h k l = omega (arith, le-mul m p h, le-mul b p h)

cap_half : (m b p : ℕ) → min m (b * 2 * p) ≡ min m (b * (p * 2))
cap_half m b p = omega arith

cap_done : (m b p : ℕ) → 1 ≤ p → b ≤ m → m ≤ b → b ≡ min m (b * (p * 2))
cap_done m b p h k l = omega (arith, le-mul b p h)

grow-pow :
    (rounds maximum backoff : ℕ)
    → backoff ≤ maximum
    → grow rounds maximum backoff ≡ min maximum (backoff * 2 ^ rounds)
unfolding grow
grow-pow zero maximum backoff h = omega arith
grow-pow (suc rounds) maximum backoff h =
    let p = 2 ^ rounds in
    rw (pow-suc 2 rounds) (
      ground (
        arith,
        grow-pow rounds maximum maximum,
        grow-pow rounds maximum (backoff * 2),
        pow_pos rounds,
        cap_full maximum backoff p,
        cap_half maximum backoff p,
        cap_done maximum backoff p,
      ))

positive_or-pos : (d : ℤ) (fallback : ℕ) → 1 ≤ fallback → 1 ≤ positive_or d fallback
unfolding positive_or
positive_or-pos (pos zero) f h = h
positive_or-pos (pos (suc n)) f h = omega arith
positive_or-pos (negsuc n) f h = h

backoff-pow :
    (policy : RetryPolicy) (attempt : ℕ)
    → let initial = positive_or policy.initial second in
      let maximum = positive_or policy.maximum minute in
      backoff_of policy attempt ≡ min maximum (min initial maximum * 2 ^ (attempt - 1))
unfolding backoff_of
backoff-pow policy attempt =
    let initial = positive_or policy.initial second in
    let maximum = positive_or policy.maximum minute in
    grow-pow (attempt - 1) maximum (min initial maximum) (omega arith)

-- On a 64-bit word the loop is the one on numbers: no product wraps around.
grow_int64-grow :
    (rounds maximum backoff : ℕ)
    → maximum < 2 ^ 63
    → backoff ≤ maximum
    → grow_int64 rounds maximum backoff ≡ grow rounds maximum backoff
unfolding grow_int64 grow
grow_int64-grow zero maximum backoff fits h = refl
grow_int64-grow (suc rounds) maximum backoff fits h =
    ground
      (arith, grow_int64-grow rounds maximum maximum, grow_int64-grow rounds maximum (backoff * 2))

-- The loop of `Delay` on 64-bit words, whose products would wrap around, gives the capped power: the
-- backoff doubles with each attempt after the first until it meets the maximum, where it stays. It
-- is also the backoff that the delay is made from. The maximum is an `int64`, as all durations are.
pub grow_int64-pow :
    (policy : RetryPolicy) (attempt : ℕ)
    → positive_or policy.maximum minute < 2 ^ 63
    → let initial = positive_or policy.initial second in
      let maximum = positive_or policy.maximum minute in
      let backoff = grow_int64 (attempt - 1) maximum (min initial maximum) in
      (backoff ≡ min maximum (min initial maximum * 2 ^ (attempt - 1)))
      × (backoff ≡ backoff_of policy attempt)
unfolding backoff_of
grow_int64-pow policy attempt fits =
    let initial = positive_or policy.initial second in
    let maximum = positive_or policy.maximum minute in
    let same = grow_int64-grow (attempt - 1) maximum (min initial maximum) fits (omega arith) in
    (same ∙ backoff-pow policy attempt, same)

max_hint-pos : (d : ℕ) (hint : ℤ) → max_hint d hint ≡ max d (pos_part hint)
unfolding max_hint
max_hint-pos d (pos n) = refl
max_hint-pos d (negsuc n) = omega arith

backoff-range :
    (policy : RetryPolicy) (attempt : ℕ)
    → (1 ≤ backoff_of policy attempt)
      × (backoff_of policy attempt ≤ positive_or policy.maximum minute)
backoff-range policy attempt =
    let initial = positive_or policy.initial second in
    let maximum = positive_or policy.maximum minute in
    let p = 2 ^ (attempt - 1) in
    omega (
      arith,
      backoff-pow policy attempt,
      le-mul (min initial maximum) p (pow_pos (attempt - 1)),
      positive_or-pos policy.initial second (omega arith),
      positive_or-pos policy.maximum minute (omega arith),
    )

jitter_bound : (hash range : ℕ) → 1 ≤ range → hash % range < range
jitter_bound hash range h = omega arith

-- The delay is positive, never passes the policy's maximum, is at least half of the backoff, is at
-- least the provider's hint as far as the maximum lets it, and is at most the larger of the
-- backoff and the hint.
pub delay_bounds :
    (policy : RetryPolicy) (update_id : Text) (attempt : ℕ) (hint : ℤ)
    → let maximum = positive_or policy.maximum minute in
      let backoff = backoff_of policy attempt in
      let d = delay policy update_id attempt hint in
      (1 ≤ d)
      × (d ≤ maximum)
      × (backoff / 2 ≤ d)
      × (min maximum (pos_part hint) ≤ d)
      × (d ≤ max backoff (pos_part hint))
unfolding delay
delay_bounds policy update_id attempt hint =
    let maximum = positive_or policy.maximum minute in
    let backoff = backoff_of policy attempt in
    let floor = max nanosecond (backoff / 2) in
    let (low, high) = backoff-range policy attempt in
    omega (
      arith,
      low,
      high,
      jitter_bound (jitter_hash update_id attempt) (backoff - floor + 1),
      max_hint-pos (floor + jitter_hash update_id attempt % (backoff - floor + 1)) hint,
    )
