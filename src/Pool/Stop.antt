-- ===== src/Pool/Stop.antt =====
-- How the pool comes to rest behind the end of its context.
use fx_quotes.Prelude.{
  ℕ, ◌+◌, ◌*◌, ◌≤◌, ◌≡◌, refl, sym, ap, subst, All, Bool, true, List, [], ◌∷◌, ok, err, arith,
  length, ◌⊎◌, inl, inr,
}
use fx_quotes.Usecase.Service.{provider_required}
use fx_quotes.Pool.{
  Pool, after_process, Worker, heading, processing, returned, idling, backing_off, next_worker,
  Recovery, entered, starting, recovering, done, checking, pausing, System, Move, stop, ask, answer,
  idled, woken, idle_stopped, backed_off, back_off_stopped, Moves, here, there, Step, work,
  entered_late, entered_early, started, launched, not_launched, recovered, resumed,
  recovery_stopped, Outside, notified, cancels,
}
use fx_quotes.Pool.Drain.{
  IsStaffed, Course, stays, steps, meets, called, worker_left, workers_left, recovery_left,
  left_to_do, Course-IsSound,
}

module _ (pool : Pool) where
  -- However the steps of the pool, the notifications and the end of the context alternate after
  -- `Run` is called with at most `Concurrency` tokens, `wakeup` holds at most `Concurrency`
  -- tokens and there are at most `Concurrency` workers.
  pub course_bounds :
      (n t : ℕ) (c : Bool) (s : System)
      → t ≤ pool.concurrency
      → Course pool n (called c t) s
      → (s.tokens ≤ pool.concurrency) × (length s.workers ≤ pool.concurrency)
  course_bounds n t c s h course =
      let (tokens, staffed) = Course-IsSound pool n (called c t) s course (h, refl) in
      (tokens, staffed_bound s.recovery s.workers staffed)
    where
      staffed_bound :
          (r : Recovery) (ws : List Worker) → IsStaffed pool r ws → length ws ≤ pool.concurrency
      staffed_bound entered ws none_yet =
          subst (λ l. length l ≤ pool.concurrency) (sym none_yet) (omega arith)
      staffed_bound starting ws none_yet =
          subst (λ l. length l ≤ pool.concurrency) (sym none_yet) (omega arith)
      staffed_bound (checking _) ws none_yet =
          subst (λ l. length l ≤ pool.concurrency) (sym none_yet) (omega arith)
      staffed_bound (pausing _) ws all = omega (arith, all)
      staffed_bound recovering ws all = omega (arith, all)
      staffed_bound done ws some = some

  Move-left :
      (c : Bool) (t t' : ℕ) (w w' : Worker)
      → c ≡ true
      → Move pool c t w t' w'
      → worker_left w' + 1 ≤ worker_left w
  unfolding after_process
  Move-left c t t' w w' h (stop _ _) = omega arith
  Move-left c t t' w w' h (ask _ clash) = ground (arith, h, clash)
  Move-left c t t' w w' h (answer _ result) =
      subst (λ b. worker_left (next_worker (after_process pool b result)) + 1 ≤ 1) (sym h)
        (omega arith)
  Move-left c t t' w w' h (idled _ _) = omega arith
  Move-left c t t' w w' h (woken _ _) = omega arith
  Move-left c t t' w w' h (idle_stopped _ _ _) = omega arith
  Move-left c t t' w w' h (backed_off _ _) = omega arith
  Move-left c t t' w w' h (back_off_stopped _ _ _) = omega arith

  Moves-left :
      (c : Bool) (t t' : ℕ) (ws ws' : List Worker)
      → c ≡ true
      → Moves pool c t ws t' ws'
      → workers_left ws' + 1 ≤ workers_left ws
  Moves-left c t t' ws ws' h (here _ _ w w' rest m) = omega (arith, Move-left c t t' w w' h m)
  Moves-left c t t' ws ws' h (there _ _ w rest rest' m) =
      omega (arith, Moves-left c t t' rest rest' h m)

  Step-left :
      (s s' : System)
      → s.cancelled ≡ true
      → Step pool s s'
      → (s'.cancelled ≡ true) × (left_to_do s' + 1 ≤ left_to_do s)
  Step-left s s' h (work c t t' r ws ws' m) = (h, omega (arith, Moves-left c t t' ws ws' h m))
  Step-left s s' h (entered_late t) = (h, omega arith)
  Step-left s s' h (entered_early t) = ground (arith, h)
  Step-left s s' h (started c t result) = (h, omega arith)
  Step-left s s' h (launched t delay) = ground (arith, h)
  Step-left s s' h (not_launched t delay) = (h, omega arith)
  Step-left s s' h (recovered c t result ws) = (h, omega arith)
  Step-left s s' h (resumed t delay ws) = ground (arith, h)
  Step-left s s' h (recovery_stopped t delay ws) = (h, omega arith)

  Outside-left :
      (s s' : System)
      → s.cancelled ≡ true
      → Outside pool s s'
      → (s'.cancelled ≡ true) × (left_to_do s' ≡ left_to_do s)
  Outside-left s s' h (notified c t r ws) = (h, refl)
  Outside-left s s' h (cancels c t r ws) = (refl, refl)

  Course-left :
      (n : ℕ) (s s' : System)
      → s.cancelled ≡ true
      → Course pool n s s'
      → n + left_to_do s' ≤ left_to_do s
  Course-left _ s s' h (stays _) = omega arith
  Course-left _ s s' h (steps n _ next _ first rest) =
      let (h', less) = Step-left s next h first in omega (arith, Course-left n next s' h' rest)
  Course-left _ s s' h (meets n _ next _ first rest) =
      let (h', same) = Outside-left s next h first in omega (arith, Course-left n next s' h' rest)

  workers_left_bound : (ws : List Worker) → workers_left ws ≤ 2 * length ws
  workers_left_bound [] = omega arith
  workers_left_bound (w ∷ ws) = omega (arith, workers_left_bound ws, worker_left_bound w)
    where
      worker_left_bound : (w : Worker) → worker_left w ≤ 2
      worker_left_bound heading = omega arith
      worker_left_bound processing = omega arith
      worker_left_bound returned = omega arith
      worker_left_bound (idling _) = omega arith
      worker_left_bound (backing_off _) = omega arith

  recovery_left_bound : (r : Recovery) → recovery_left r ≤ 2
  recovery_left_bound entered = omega arith
  recovery_left_bound starting = omega arith
  recovery_left_bound recovering = omega arith
  recovery_left_bound done = omega arith
  recovery_left_bound (checking _) = omega arith
  recovery_left_bound (pausing _) = omega arith

  -- Once the context has ended, in any state that the pool reaches after `Run` is called with
  -- at most `Concurrency` tokens, its goroutines together take at most two steps per worker and
  -- two more, whatever the calls return, whichever of the ready cases `select` takes and
  -- however many notifications come.
  pub drain_terminates :
      (before after t : ℕ) (c : Bool) (s s' : System)
      → t ≤ pool.concurrency
      → Course pool before (called c t) s
      → s.cancelled ≡ true
      → Course pool after s s'
      → after ≤ 2 * pool.concurrency + 2
  drain_terminates before after t c s s' h reached stopped course = omega (
    arith,
    Course-left after s s' stopped course,
    course_bounds before t c s h reached,
    workers_left_bound s.workers,
    recovery_left_bound s.recovery,
  )

  -- A worker that has not returned can move.
  Moves-exist :
      (t : ℕ) (ws : List Worker)
      → All (λ w. w ≡ returned) ws ⊎ ((t' : ℕ) × (ws' : List Worker) × Moves pool true t ws t' ws')
  Moves-exist t [] = inl tt
  Moves-exist t (returned ∷ ws) = elim (Moves-exist t ws) [
    | inl h ↦ inl (refl, h)
    | inr (t', ws', m) ↦ inr (t', returned ∷ ws', there t t' returned ws ws' m)
  ]
  Moves-exist t (heading ∷ ws) = inr (t, returned ∷ ws, here t t heading returned ws (stop t refl))
  Moves-exist t (processing ∷ ws) =
      inr (t, _, here t t processing _ ws (answer t (err provider_required)))
  Moves-exist t (idling delay ∷ ws) =
      inr (t, returned ∷ ws, here t t (idling delay) returned ws (idle_stopped t delay refl))
  Moves-exist t (backing_off delay ∷ ws) =
      inr
        (t, returned ∷ ws, here t t (backing_off delay) returned ws (back_off_stopped t delay refl))

  some_worker : (w : Worker) (ws : List Worker) → ¬ ((w ∷ ws) ≡ [])
  some_worker w ws h = omega (arith, ap length h)

  Step-exists :
      (t : ℕ) (r : Recovery) (ws : List Worker)
      → IsStaffed pool r ws
      → let s : System = record { cancelled = true; tokens = t; recovery = r; workers = ws } in
        ((r ≡ done) × All (λ w. w ≡ returned) ws) ⊎ ((s' : System) × Step pool s s')
  Step-exists t entered [] h = inr (_, entered_late t)
  Step-exists t starting [] h = inr (_, started true t (ok []))
  Step-exists t (checking delay) [] h = inr (_, not_launched t delay)
  Step-exists t entered (w ∷ ws) h = absurd (some_worker w ws h)
  Step-exists t starting (w ∷ ws) h = absurd (some_worker w ws h)
  Step-exists t (checking _) (w ∷ ws) h = absurd (some_worker w ws h)
  Step-exists t (pausing delay) ws h = inr (_, recovery_stopped t delay ws)
  Step-exists t recovering ws h = inr (_, recovered true t (ok []) ws)
  Step-exists t done ws h = elim (Moves-exist t ws) [
    | inl h ↦ inl (refl, h)
    | inr (t', ws', m) ↦ inr (_, work true t t' done ws ws' m)
  ]

  -- Once the context has ended, in any state that the pool reaches after `Run` is called with
  -- at most `Concurrency` tokens, either recovery and all the workers have ended, or a step can
  -- be taken: the pool gets stuck in no other state.
  pub drain_moves :
      (n t : ℕ) (c : Bool) (s : System)
      → t ≤ pool.concurrency
      → Course pool n (called c t) s
      → s.cancelled ≡ true
      → ((s.recovery ≡ done) × All (λ w. w ≡ returned) s.workers) ⊎ ((s' : System) × Step pool s s')
  drain_moves n t c s h course stopped =
      let staffed = (Course-IsSound pool n (called c t) s course (h, refl)).1 in
      subst
        (λ b.
          let here_now : System = record {
            cancelled = b;
            tokens = s.tokens;
            recovery = s.recovery;
            workers = s.workers;
          } in
          ((s.recovery ≡ done) × All (λ w. w ≡ returned) s.workers)
          ⊎ ((s' : System) × Step pool here_now s'))
        (sym stopped) (Step-exists s.tokens s.recovery s.workers staffed)
