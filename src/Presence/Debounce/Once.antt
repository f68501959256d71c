-- ===== src/Presence/Debounce/Once.antt =====
-- A timer that was stopped never executes its callback, and no timer executes it twice.
use wifi_presence.Base.{
  ℕ, ◌≡◌, ◌≢◌, inl, inr, arith, true, some, List, [], ◌∷◌, ◌==◌, if◌then◌else◌, All, All-append,
}
use wifi_presence.Base.Maps.{lookup, nat_key, lookup-insert}
use wifi_presence.Presence.Mac.{Mac, mac_key}
use wifi_presence.Presence.Debounce.{
  Phase, fired, stopped, done, Timer, Debouncer, set_phase, cancel,
}
use wifi_presence.Presence.Debounce.Cases.{
  unqueue, cancel_cases, expire_cases, run_cases, added, enqueue_cases,
}
use wifi_presence.Presence.Debounce.Invariant.{Inv, cancel-Inv}
use wifi_presence.Presence.Debounce.Runs.{
  Action, cancels, enqueues, expires, runs, Execution, act, executions, all_executions, act-Inv,
  executed_cases,
}

-- A timer that is stopped or done.
abbrev pub IsDead : Phase → Type 0
IsDead stopped = Unit
IsDead done = Unit
IsDead _ = ⊥

module _ {A : Type 0} where
  -- What a step may do to timer `t`.
  pub lookup-set_phase :
      (t u : ℕ) (timer : Timer A) (p : Phase) (d : Debouncer A)
      → lookup u (set_phase t timer p d).timers
        ≡ (if t == u then some (record timer { phase = p }) else lookup u d.timers)
  lookup-set_phase t u timer p d = lookup-insert t u (record timer { phase = p }) d.timers

  act_dead :
      (a : Action A) (d : Debouncer A) (t : ℕ) (timer : Timer A)
      → Inv d
      → lookup t d.timers ≡ some timer
      → IsDead timer.phase
      → lookup t (act a d).timers ≡ some timer
  unfolding act
  act_dead (cancels mac) d t timer v e dead = elim (cancel_cases mac d) [
    | inl (u, w, q, (k, p), r) ↦ ground (arith, lookup-set_phase u t w stopped (unqueue mac d))
    | inr r ↦ ground arith
  ]
  act_dead (enqueues now mac cb) d t timer v e dead = elim (enqueue_cases now mac cb d) [
    | inl (q, r) ↦
        ground (arith, v.fresh t e, lookup-insert d.created t (added now mac cb d) d.timers)
    | inr (u, q, r) ↦ ground arith
  ]
  act_dead (expires now u) d t timer v e dead = elim (expire_cases now u d) [
    | inl (w, (k, p), due, r) ↦ ground (arith, lookup-set_phase u t w (fired now) d)
    | inr r ↦ ground arith
  ]
  act_dead (runs u) d t timer v e dead = elim (run_cases u d) [
    | inl (w, n, x, (k, p), q, r) ↦ ground (arith, lookup-set_phase u t w done (unqueue w.mac d))
    | inr (inl (w, n, (k, p), q, r)) ↦ ground (arith, lookup-set_phase u t w done d)
    | inr (inr r) ↦ ground arith
  ]

  pub executions_dead :
      (a : Action A) (d : Debouncer A) (t : ℕ) (timer : Timer A)
      → lookup t d.timers ≡ some timer
      → IsDead timer.phase
      → All (λ (x : Execution A). x.timer ≢ t) (executions a d)
  unfolding executions
  executions_dead (runs u) d t timer e dead = elim (executed_cases u d) [
    | inl (w, n, x, a, (k, p), q, c, r) ↦ rw r ((λ same. ground arith), tt)
    | inr r ↦ rw r tt
  ]
  executions_dead _ d t timer e dead = tt

  -- Once a timer is stopped or done, no later sequence of steps executes its callback.
  pub all_executions_dead :
      (acts : List (Action A)) (d : Debouncer A) (t : ℕ) (timer : Timer A)
      → Inv d
      → lookup t d.timers ≡ some timer
      → IsDead timer.phase
      → All (λ (x : Execution A). x.timer ≢ t) (all_executions acts d)
  unfolding all_executions
  all_executions_dead [] d t timer v e dead = tt
  all_executions_dead (a ∷ acts) d t timer v e dead =
      All-append (λ (x : Execution A). x.timer ≢ t) (executions a d) _
        (executions_dead a d t timer e dead)
        (all_executions_dead acts (act a d) t timer (act-Inv a d v) (act_dead a d t timer v e dead)
          dead)

  -- In a debouncer with the invariant, `cancel` returns true only where it stopped the timer that was
  -- queued for the address, and then that timer's callback is never executed, whatever happens
  -- afterwards.
  pub cancel_effective :
      (mac : Mac) (d : Debouncer A)
      → Inv d
      → (cancel mac d).1 ≡ true
      → (t : ℕ) × (lookup mac d.queue ≡ some t)
        × ((acts : List (Action A))
            → All (λ (x : Execution A). x.timer ≢ t) (all_executions acts (cancel mac d).0))
  cancel_effective mac d v h = elim (cancel_cases mac d) [
    | inl (t, timer, e, (k, p), r) ↦ (
      t,
      e,
      λ acts.
          all_executions_dead acts (cancel mac d).0 t (record timer { phase = stopped })
            (cancel-Inv mac d v)
            (ground (arith, lookup-set_phase t t timer stopped (unqueue mac d))) tt,
    )
    | inr r ↦ absurd (ground arith)
  ]
