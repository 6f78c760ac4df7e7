-- ===== src/Pool/Drain.antt =====
-- The stop of the pool: the states that it can reach, and what its goroutines still have to do once
-- the context has ended.
use fx_quotes.Prelude.{
  ℕ, suc, ◌+◌, ◌≤◌, ◌≡◌, refl, ap, Bool, List, [], ◌∷◌, arith, length, length-replicate,
}
use fx_quotes.Pool.{
  Pool, Worker, heading, processing, returned, idling, backing_off, Recovery, entered, starting,
  recovering, done, checking, pausing, System, Move, stop, ask, answer, idled, woken, idle_stopped,
  backed_off, back_off_stopped, Moves, here, there, Step, work, entered_late, entered_early,
  started, launched, not_launched, recovered, resumed, recovery_stopped, Outside, notified, cancels,
}
use fx_quotes.Pool.Delays.{after_recover_bounds, notify_bound}

-- Before `Run` starts its goroutines there are none; later there are at most as many as `Config`
-- asks for.
abbrev pub IsStaffed : Pool → Recovery → List Worker → Type 0
IsStaffed pool entered ws = ws ≡ []
IsStaffed pool starting ws = ws ≡ []
IsStaffed pool (checking delay) ws = ws ≡ []
IsStaffed pool (pausing delay) ws = length ws ≡ pool.concurrency
IsStaffed pool recovering ws = length ws ≡ pool.concurrency
IsStaffed pool done ws = length ws ≤ pool.concurrency

abbrev pub IsSound : Pool → System → Type 0
IsSound pool s = (s.tokens ≤ pool.concurrency) × IsStaffed pool s.recovery s.workers

-- A course of the pool: its own steps are counted, what happens from outside is not.
pub data Course (pool : Pool) : ℕ → System → System → Type 0 where
  stays : (s : System) → Course pool 0 s s
  steps :
      (n : ℕ) (s s' s'' : System)
      → Step pool s s'
      → Course pool n s' s''
      → Course pool (suc n) s s''
  meets :
      (n : ℕ) (s s' s'' : System) → Outside pool s s' → Course pool n s' s'' → Course pool n s s''

-- The state when `Run` is called.
abbrev pub called : Bool → ℕ → System
called cancelled tokens = record {
  cancelled = cancelled;
  tokens = tokens;
  recovery = entered;
  workers = [];
}

-- The most steps that a goroutine takes once the context has ended.
abbrev pub worker_left : Worker → ℕ
worker_left returned = 0
worker_left heading = 1
worker_left processing = 1
worker_left (idling delay) = 2
worker_left (backing_off delay) = 2

abbrev pub workers_left : List Worker → ℕ
workers_left [] = 0
workers_left (w ∷ ws) = worker_left w + workers_left ws

abbrev pub recovery_left : Recovery → ℕ
recovery_left done = 0
recovery_left (pausing delay) = 1
recovery_left (checking delay) = 1
recovery_left entered = 1
recovery_left recovering = 2
recovery_left starting = 2

abbrev pub left_to_do : System → ℕ
left_to_do s = recovery_left s.recovery + workers_left s.workers

module _ (pool : Pool) where
  Move-tokens : (c : Bool) (t t' : ℕ) (w w' : Worker) → Move pool c t w t' w' → t' ≤ t
  Move-tokens c t t' w w' (stop _ _) = omega arith
  Move-tokens c t t' w w' (ask _ _) = omega arith
  Move-tokens c t t' w w' (answer _ _) = omega arith
  Move-tokens c t t' w w' (idled _ _) = omega arith
  Move-tokens c t t' w w' (woken _ _) = omega arith
  Move-tokens c t t' w w' (idle_stopped _ _ _) = omega arith
  Move-tokens c t t' w w' (backed_off _ _) = omega arith
  Move-tokens c t t' w w' (back_off_stopped _ _ _) = omega arith

  Moves-tokens :
      (c : Bool) (t t' : ℕ) (ws ws' : List Worker)
      → Moves pool c t ws t' ws'
      → (t' ≤ t) × (length ws' ≡ length ws)
  Moves-tokens c t t' ws ws' (here _ _ w w' rest m) = (Move-tokens c t t' w w' m, refl)
  Moves-tokens c t t' ws ws' (there _ _ w rest rest' m) =
      let (h, same) = Moves-tokens c t t' rest rest' m in (h, ap suc same)

  Moves-some : (c : Bool) (t t' : ℕ) (ws ws' : List Worker) → Moves pool c t ws t' ws' → ¬ (ws ≡ [])
  Moves-some c t t' ws ws' (here _ _ w w' rest m) h = omega (arith, ap length h)
  Moves-some c t t' ws ws' (there _ _ w rest rest' m) h = omega (arith, ap length h)

  Moves-IsStaffed :
      (c : Bool) (t t' : ℕ) (r : Recovery) (ws ws' : List Worker)
      → Moves pool c t ws t' ws'
      → IsStaffed pool r ws
      → IsStaffed pool r ws'
  Moves-IsStaffed c t t' entered ws ws' m h = absurd (Moves-some c t t' ws ws' m h)
  Moves-IsStaffed c t t' starting ws ws' m h = absurd (Moves-some c t t' ws ws' m h)
  Moves-IsStaffed c t t' (checking _) ws ws' m h = absurd (Moves-some c t t' ws ws' m h)
  Moves-IsStaffed c t t' (pausing _) ws ws' m h =
      let (_, same) = Moves-tokens c t t' ws ws' m in omega (arith, same, h)
  Moves-IsStaffed c t t' recovering ws ws' m h =
      let (_, same) = Moves-tokens c t t' ws ws' m in omega (arith, same, h)
  Moves-IsStaffed c t t' done ws ws' m h =
      let (_, same) = Moves-tokens c t t' ws ws' m in omega (arith, same, h)

  Step-IsSound : (s s' : System) → Step pool s s' → IsSound pool s → IsSound pool s'
  Step-IsSound s s' (work c t t' r ws ws' m) (h, staffed) =
      let (less, _) = Moves-tokens c t t' ws ws' m in
      (omega arith, Moves-IsStaffed c t t' r ws ws' m staffed)
  Step-IsSound s s' (entered_late t) (h, staffed) = (h, omega arith)
  Step-IsSound s s' (entered_early t) (h, staffed) = (h, refl)
  Step-IsSound s s' (started c t result) (h, staffed) =
      ((after_recover_bounds pool c result t h).3, refl)
  Step-IsSound s s' (launched t delay) (h, staffed) = (h, length-replicate pool.concurrency heading)
  Step-IsSound s s' (not_launched t delay) (h, staffed) = (h, omega arith)
  Step-IsSound s s' (recovered c t result ws) (h, staffed) =
      ((after_recover_bounds pool c result t h).3, staffed)
  Step-IsSound s s' (resumed t delay ws) (h, staffed) = (h, staffed)
  Step-IsSound s s' (recovery_stopped t delay ws) (h, staffed) = (h, omega (arith, staffed))

  Outside-IsSound : (s s' : System) → Outside pool s s' → IsSound pool s → IsSound pool s'
  Outside-IsSound s s' (notified c t r ws) (h, staffed) = (notify_bound pool t h, staffed)
  Outside-IsSound s s' (cancels c t r ws) (h, staffed) = (h, staffed)

  pub Course-IsSound :
      (n : ℕ) (s s' : System) → Course pool n s s' → IsSound pool s → IsSound pool s'
  Course-IsSound _ s s' (stays _) h = h
  Course-IsSound _ s s' (steps n _ next _ first rest) h =
      Course-IsSound n next s' rest (Step-IsSound s next first h)
  Course-IsSound _ s s' (meets n _ next _ first rest) h =
      Course-IsSound n next s' rest (Outside-IsSound s next first h)
