-- ===== src/Pool.antt =====
-- internal/adapter/worker/pool.go without its logging. Durations are nanoseconds. The goroutines of `Run` are the parts
-- of one state (`System`); each step of one of them is a step of it.

pub mod Delays
pub mod Drain
pub mod Stop
pub mod GoError
pub mod Log
use fx_quotes.Prelude.{
  ℕ, zero, suc, ◌+◌, ◌-◌, ◌<◌, ◌≡◌, min, max, Bool, true, false, not, ◌&&◌, ◌||◌, List, [], ◌∷◌,
  Option, none, some, Result, ok, err, ltb, leb, if◌then◌else◌, length, replicate,
}
use fx_quotes.Prelude.Int.{ℤ, pos, negsuc}
use fx_quotes.Text.{Text, codes, utf8}
use fx_quotes.Entity.Update.{QuoteUpdate}
use fx_quotes.Usecase.Commands.{
  Fault, deadline_exceeded, canceled, internal, StoreError, no_work, ProcessResult,
}
use fx_quotes.Usecase.Service.{ServiceError, store_error, provider_required}

pub record Config : Type 0 where
  pub concurrency : ℤ
  pub lease_duration : ℤ
  pub poll_interval : ℤ
  pub recovery_interval : ℤ
  pub error_delay : ℤ

-- `Pool`, whose numbers are positive.
pub record Pool : Type 0 where
  pub concurrency : ℕ
  pub lease_duration : ℕ
  pub poll_interval : ℕ
  pub recovery_interval : ℕ
  pub error_delay : ℕ

-- A number that is not `<= 0`.
abbrev pub positive : ℤ → Option ℕ
positive (pos zero) = none
positive (pos (suc n)) = some (suc n)
positive (negsuc n) = none

infixl 5 ◌>>=◌
abbrev ◌>>=◌ : {A B : Type 0} → Option A → (A → Option B) → Option B
none >>= f = none
some a >>= f = f a

-- `New`; `present` tells that the processor and the logger are there.
unfoldable pub new : Bool → Config → Option Pool
new present config = if not present then none else do
  concurrency ← positive config.concurrency
  lease ← positive config.lease_duration
  poll ← positive config.poll_interval
  recovery ← positive config.recovery_interval
  delay ← positive config.error_delay
  some (record {
    concurrency = concurrency;
    lease_duration = lease;
    poll_interval = poll;
    recovery_interval = recovery;
    error_delay = delay;
  })

-- What a worker does after a call of `ProcessNextUpdate`: it returns, asks again, or pauses, for a
-- while that a notification ends or not.
pub data Next : Type 0 where
  return : Next
  again : Next
  idle : ℕ → Next
  back_off : ℕ → Next

abbrev pub is_no_work : ServiceError → Bool
is_no_work (store_error no_work) = true
is_no_work _ = false

unfoldable pub after_process : Pool → Bool → Result ServiceError ProcessResult → Next
after_process pool true result = return
after_process pool false (ok result) = again
after_process pool false (err e) =
    if is_no_work e then idle pool.poll_interval else back_off pool.error_delay

-- `Notify` on the number of tokens in `wakeup`.
unfoldable pub notify : Pool → ℕ → ℕ
notify pool tokens = if ltb tokens pool.concurrency then tokens + 1 else tokens

unfoldable pub notify_times : Pool → ℕ → ℕ → ℕ
notify_times pool zero tokens = tokens
notify_times pool (suc n) tokens = notify_times pool n (notify pool tokens)

-- `recoverExpiredUpdates` behind the call: the delay before the next pass, and the tokens.
unfoldable pub after_recover : Pool → Bool → Result StoreError (List QuoteUpdate) → ℕ → ℕ × ℕ
unfolding notify_times
after_recover pool true result tokens = (pool.recovery_interval, tokens)
after_recover pool false (err e) tokens = (max pool.recovery_interval pool.error_delay, tokens)
after_recover pool false (ok updates) tokens = (
  if ltb 0 (length updates)
      then min pool.poll_interval pool.recovery_interval
      else pool.recovery_interval,
  notify_times pool (min (length updates) pool.concurrency) tokens,
)

-- Where a worker stands: at the head of its loop, in `ProcessNextUpdate`, in one of its pauses, or
-- returned.
pub data Worker : Type 0 where
  heading processing returned : Worker
  idling backing_off : ℕ → Worker

abbrev pub next_worker : Next → Worker
next_worker return = returned
next_worker again = heading
next_worker (idle delay) = idling delay
next_worker (back_off delay) = backing_off delay

-- Where `Run` and its recovery goroutine stand: before the first check of the context, in the first
-- pass, before the second check, in a pause, in a later pass, or done.
pub data Recovery : Type 0 where
  entered starting recovering done : Recovery
  checking pausing : ℕ → Recovery

pub record System : Type 0 where
  pub cancelled : Bool
  pub tokens : ℕ
  pub recovery : Recovery
  pub workers : List Worker

-- A step of one worker, with the tokens before and behind it.
pub data Move (pool : Pool) (cancelled : Bool) : ℕ → Worker → ℕ → Worker → Type 0 where
  stop : (t : ℕ) → cancelled ≡ true → Move pool cancelled t heading t returned
  ask : (t : ℕ) → cancelled ≡ false → Move pool cancelled t heading t processing
  answer :
      (t : ℕ) (result : Result ServiceError ProcessResult)
      → Move pool cancelled t processing t (next_worker (after_process pool cancelled result))
  idled : (t delay : ℕ) → Move pool cancelled t (idling delay) t heading
  woken : (t delay : ℕ) → Move pool cancelled (suc t) (idling delay) t heading
  idle_stopped : (t delay : ℕ) → cancelled ≡ true → Move pool cancelled t (idling delay) t returned
  backed_off : (t delay : ℕ) → Move pool cancelled t (backing_off delay) t heading
  back_off_stopped :
      (t delay : ℕ) → cancelled ≡ true → Move pool cancelled t (backing_off delay) t returned

-- One worker of the list moves.
pub data Moves (pool : Pool) (cancelled : Bool) : ℕ → List Worker → ℕ → List Worker → Type 0 where
  here :
      (t t' : ℕ) (w w' : Worker) (ws : List Worker)
      → Move pool cancelled t w t' w'
      → Moves pool cancelled t (w ∷ ws) t' (w' ∷ ws)
  there :
      (t t' : ℕ) (w : Worker) (ws ws' : List Worker)
      → Moves pool cancelled t ws t' ws'
      → Moves pool cancelled t (w ∷ ws) t' (w ∷ ws')

-- A step of the pool's own goroutines.
pub data Step (pool : Pool) : System → System → Type 0 where
  work :
      (cancelled : Bool) (t t' : ℕ) (recovery : Recovery) (ws ws' : List Worker)
      → Moves pool cancelled t ws t' ws'
      → Step pool
          (record { cancelled = cancelled; tokens = t; recovery = recovery; workers = ws })
          (record { cancelled = cancelled; tokens = t'; recovery = recovery; workers = ws' })
  entered_late :
      (t : ℕ)
      → Step pool
          (record { cancelled = true; tokens = t; recovery = entered; workers = [] })
          (record { cancelled = true; tokens = t; recovery = done; workers = [] })
  entered_early :
      (t : ℕ)
      → Step pool
          (record { cancelled = false; tokens = t; recovery = entered; workers = [] })
          (record { cancelled = false; tokens = t; recovery = starting; workers = [] })
  -- The first pass.
  started :
      (cancelled : Bool) (t : ℕ) (result : Result StoreError (List QuoteUpdate))
      → Step pool
          (record { cancelled = cancelled; tokens = t; recovery = starting; workers = [] })
          (record {
            cancelled = cancelled;
            tokens = (after_recover pool cancelled result t).1;
            recovery = checking (after_recover pool cancelled result t).0;
            workers = [];
          })
  -- The goroutines start, unless the context has ended.
  launched :
      (t delay : ℕ)
      → Step pool
          (record { cancelled = false; tokens = t; recovery = checking delay; workers = [] })
          (record {
            cancelled = false;
            tokens = t;
            recovery = pausing delay;
            workers = replicate pool.concurrency heading;
          })
  not_launched :
      (t delay : ℕ)
      → Step pool
          (record { cancelled = true; tokens = t; recovery = checking delay; workers = [] })
          (record { cancelled = true; tokens = t; recovery = done; workers = [] })
  recovered :
      (cancelled : Bool) (t : ℕ) (result : Result StoreError (List QuoteUpdate)) (ws : List Worker)
      → Step pool
          (record { cancelled = cancelled; tokens = t; recovery = recovering; workers = ws })
          (record {
            cancelled = cancelled;
            tokens = (after_recover pool cancelled result t).1;
            recovery = pausing (after_recover pool cancelled result t).0;
            workers = ws;
          })
  -- The pause ends by its timer, and the context is asked again.
  resumed :
      (t delay : ℕ) (ws : List Worker)
      → Step pool
          (record { cancelled = false; tokens = t; recovery = pausing delay; workers = ws })
          (record { cancelled = false; tokens = t; recovery = recovering; workers = ws })
  recovery_stopped :
      (t delay : ℕ) (ws : List Worker)
      → Step pool
          (record { cancelled = true; tokens = t; recovery = pausing delay; workers = ws })
          (record { cancelled = true; tokens = t; recovery = done; workers = ws })

-- What happens to the pool from outside: a notification, and the end of the context.
pub data Outside (pool : Pool) : System → System → Type 0 where
  notified :
      (cancelled : Bool) (t : ℕ) (recovery : Recovery) (ws : List Worker)
      → Outside pool
          (record { cancelled = cancelled; tokens = t; recovery = recovery; workers = ws })
          (record {
            cancelled = cancelled;
            tokens = notify pool t;
            recovery = recovery;
            workers = ws;
          })
  cancels :
      (cancelled : Bool) (t : ℕ) (recovery : Recovery) (ws : List Worker)
      → Outside pool
          (record { cancelled = cancelled; tokens = t; recovery = recovery; workers = ws })
          (record { cancelled = true; tokens = t; recovery = recovery; workers = ws })
