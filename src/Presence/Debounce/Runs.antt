-- ===== src/Presence/Debounce/Runs.antt =====
-- Sequences of calls, expiries and critical sections, and the callbacks that they execute.
use wifi_presence.Base.{
  ℕ, ◌≡◌, ◌⊎◌, inl, inr, arith, Option, none, some, List, [], ◌∷◌, ◌++◌, Option-cases,
}
use wifi_presence.Base.Maps.{lookup, nat_key}
use wifi_presence.Presence.Mac.{Mac, mac_key}
use wifi_presence.Presence.Debounce.{
  fired, done, Timer, Debouncer, new_debouncer, set_phase, cancel, enqueue, expire, run_timer,
}
use wifi_presence.Presence.Debounce.Cases.{unqueue, Holds, run_cases}
use wifi_presence.Presence.Debounce.Invariant.{
  Inv, new_debouncer-Inv, cancel-Inv, enqueue-Inv, expire-Inv, run_timer-Inv,
}

pub data Action (A : Type 0) : Type 0 where
  cancels : Mac → Action A
  enqueues : ℕ → Mac → Option A → Action A
  expires : ℕ → ℕ → Action A
  runs : ℕ → Action A

-- A callback that was executed: its timer, the timer's address, and the callback.
pub record Execution (A : Type 0) : Type 0 where
  pub timer : ℕ
  pub mac : Mac
  pub cb : A

module _ {A : Type 0} where
  unfoldable pub act : Action A → Debouncer A → Debouncer A
  act (cancels mac) d = (cancel mac d).0
  act (enqueues now mac cb) d = (enqueue now mac cb d).0
  act (expires now t) d = expire now t d
  act (runs t) d = (run_timer t d).0

  -- The callback that a critical section of timer `t` hands on.
  unfoldable pub executed : ℕ → Debouncer A → List (Execution A)
  executed t d = elim (lookup t d.timers) [
    | none ↦ []
    | some timer ↦ elim (run_timer t d).1 [
      | none ↦ []
      | some a ↦ record { timer = t; mac = timer.mac; cb = a } ∷ []
    ]
  ]

  unfoldable pub executions : Action A → Debouncer A → List (Execution A)
  unfolding executed
  executions (runs t) d = executed t d
  executions _ d = []

  unfoldable pub act_all : List (Action A) → Debouncer A → Debouncer A
  act_all [] d = d
  act_all (a ∷ acts) d = act_all acts (act a d)

  unfoldable pub all_executions : List (Action A) → Debouncer A → List (Execution A)
  all_executions [] d = []
  all_executions (a ∷ acts) d = executions a d ++ all_executions acts (act a d)

  pub act-Inv : (a : Action A) (d : Debouncer A) → Inv d → Inv (act a d)
  unfolding act
  act-Inv (cancels mac) d v = cancel-Inv mac d v
  act-Inv (enqueues now mac cb) d v = enqueue-Inv now mac cb d v
  act-Inv (expires now t) d v = expire-Inv now t d v
  act-Inv (runs t) d v = run_timer-Inv t d v

  pub act_all-Inv : (acts : List (Action A)) (d : Debouncer A) → Inv d → Inv (act_all acts d)
  unfolding act_all
  act_all-Inv [] d v = v
  act_all-Inv (a ∷ acts) d v = act_all-Inv acts (act a d) (act-Inv a d v)

  -- Whatever callers, runtime and scheduler do, in any order, the debouncer keeps its invariant:
  -- every queue entry names a timer of that address which is armed or started, and a timer starts only
  -- when it is due.
  pub reachable-Inv :
      (debounce : ℕ) (acts : List (Action A)) → Inv (act_all acts (new_debouncer debounce))
  reachable-Inv debounce acts =
      act_all-Inv acts (new_debouncer debounce) (new_debouncer-Inv debounce)

  -- A callback is executed only by a started timer whose address has a queue entry.
  pub executed_cases :
      (t : ℕ) (d : Debouncer A)
      → ((timer : Timer A) × (n : ℕ) × (u : ℕ) × (a : A) × Holds t timer (fired n) d
          × (lookup timer.mac d.queue ≡ some u)
          × (timer.cb ≡ some a)
          × (executed t d ≡ record { timer = t; mac = timer.mac; cb = a } ∷ []))
        ⊎ (executed t d ≡ [])
  unfolding executed
  executed_cases t d = elim (run_cases t d) [
    | inl (timer, n, u, (k, p), e, r) ↦ elim (Option-cases timer.cb) [
      | inl c ↦ inr (ground arith)
      | inr (a, c) ↦ inl (timer, n, u, a, (k, p), e, c, ground arith)
    ]
    | inr (inl (timer, n, (k, p), e, r)) ↦ inr (ground arith)
    | inr (inr r) ↦ inr (ground arith)
  ]

  -- A started timer whose address is queued executes its callback.
  pub executed_queued :
      (t : ℕ) (timer : Timer A) (n u : ℕ) (a : A) (d : Debouncer A)
      → Holds t timer (fired n) d
      → lookup timer.mac d.queue ≡ some u
      → timer.cb ≡ some a
      → (executed t d ≡ record { timer = t; mac = timer.mac; cb = a } ∷ [])
        × ((run_timer t d).0 ≡ set_phase t timer done (unqueue timer.mac d))
  unfolding executed run_timer
  executed_queued t timer n u a d h q c = ground arith

  -- No callback is executed for an address that is not queued.
  pub executed_unqueued :
      (t : ℕ) (timer : Timer A) (d : Debouncer A)
      → lookup t d.timers ≡ some timer
      → lookup timer.mac d.queue ≡ none
      → executed t d ≡ []
  executed_unqueued t timer d e q = elim (executed_cases t d) [
    | inl (w, n, u, a, (k, p), e', c, r) ↦ absurd (ground arith)
    | inr r ↦ r
  ]
