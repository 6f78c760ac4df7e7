-- ===== src/Usecase/Retry.antt =====
-- internal/usecase/quote/retry.go. Durations are nanoseconds; `Maximum` and `Initial` may be zero
-- or negative, and so may the provider's hint. An attempt is not negative.
pub mod Backoff
use Prim.Native.Nat.{bit_xor}
use fx_quotes.Prelude.{
  ℕ, zero, suc, ◌+◌, ◌-◌, ◌*◌, ◌/◌, ◌%◌, ◌^◌, List, [], ◌∷◌, ◌++◌, ltb, leb, Bool, not, ◌&&◌, ◌||◌,
  if◌then◌else◌, min, max, ◌≡◌, refl,
}
use fx_quotes.Prelude.Int.{ℤ, pos, negsuc}
use fx_quotes.Text.{Text, codes, utf8}

abbrev pub nanosecond : ℕ
nanosecond = 1

abbrev pub second : ℕ
second = 1_000_000_000

abbrev pub minute : ℕ
minute = 60_000_000_000

pub record RetryPolicy : Type 0 where
  pub initial : ℤ
  pub maximum : ℤ

-- `if d <= 0 { d = fallback }`.
unfoldable pub positive_or : ℤ → ℕ → ℕ
positive_or (pos (suc n)) fallback = suc n
positive_or (pos zero) fallback = fallback
positive_or (negsuc n) fallback = fallback

-- The loop of `Delay`, with the rounds that are left.
unfoldable pub grow : ℕ → ℕ → ℕ → ℕ
grow zero maximum backoff = backoff
grow (suc rounds) maximum backoff =
    let rest = grow rounds maximum (if ltb (maximum / 2) backoff then maximum else backoff * 2) in
    if ltb backoff maximum then rest else backoff

-- The same loop on `int64` as it is kept in memory: a number below 2 ^ 64, which is negative from
-- 2 ^ 63 on. `maximum` is not negative.
abbrev pub is_negative : ℕ → Bool
is_negative w = leb (2 ^ 63) w

abbrev pub less_than : ℕ → ℕ → Bool
less_than w maximum = is_negative w || ltb w maximum

abbrev pub more_than : ℕ → ℕ → Bool
more_than w bound = not (is_negative w) && ltb bound w

abbrev pub twice : ℕ → ℕ
twice w = w * 2 % 2 ^ 64

unfoldable pub grow_int64 : ℕ → ℕ → ℕ → ℕ
grow_int64 zero maximum backoff = backoff
grow_int64 (suc rounds) maximum backoff =
    let rest =
      grow_int64 rounds maximum
        (if more_than backoff (maximum / 2) then maximum else twice backoff) in
    if less_than backoff maximum then rest else backoff

-- `hash/fnv`: the 64-bit FNV-1a hash of bytes behind the hash of those before.
unfoldable pub fnv64a : ℕ → List ℕ → ℕ
fnv64a hash [] = hash
fnv64a hash (b ∷ bs) = fnv64a (bit_xor hash b * 1_099_511_628_211 % 2 ^ 64) bs

abbrev pub fnv_offset : ℕ
fnv_offset = 14_695_981_039_346_656_037

-- `binary.LittleEndian.PutUint64`: the low `n` bytes of a number, the lowest first.
unfoldable pub little_endian : ℕ → ℕ → List ℕ
little_endian zero v = []
little_endian (suc n) v = (v % 256) ∷ little_endian n (v / 256)

unfoldable pub jitter_hash : Text → ℕ → ℕ
unfolding fnv64a little_endian utf8
jitter_hash update_id attempt =
    fnv64a (fnv64a fnv_offset (utf8 update_id)) (little_endian 8 attempt)

-- `max(delay, hint)`, for a delay that is not negative.
unfoldable pub max_hint : ℕ → ℤ → ℕ
max_hint delay (pos n) = max delay n
max_hint delay (negsuc n) = delay

-- The capped exponential growth before the jitter.
unfoldable pub backoff_of : RetryPolicy → ℕ → ℕ
unfolding grow positive_or
backoff_of policy attempt =
    let initial = positive_or policy.initial second in
    let maximum = positive_or policy.maximum minute in
    grow (attempt - 1) maximum (min initial maximum)

unfoldable pub delay : RetryPolicy → Text → ℕ → ℤ → ℕ
unfolding backoff_of jitter_hash max_hint positive_or
delay policy update_id attempt hint =
    let maximum = positive_or policy.maximum minute in
    let backoff = backoff_of policy attempt in
    let floor = max nanosecond (backoff / 2) in
    let jittered = floor + jitter_hash update_id attempt % (backoff - floor + 1) in
    min maximum (max_hint jittered hint)

abbrev default_policy : RetryPolicy
default_policy = record { initial = pos second; maximum = pos minute }

backoff_third : backoff_of default_policy 3 ≡ 4 * second
unfolding backoff_of
backoff_third = refl

backoff_capped : backoff_of default_policy 10 ≡ minute
unfolding backoff_of
backoff_capped = refl

-- The published FNV-1a value of "a".
fnv_of_a : fnv64a fnv_offset (codes "a") ≡ 0xaf63dc4c8601ec8c
unfolding fnv64a
fnv_of_a = refl
