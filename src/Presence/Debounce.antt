-- ===== src/Presence/Debounce.antt =====
-- internal/presence/debounce.go. A timer of `time.AfterFunc` is a number in `timers`; the map
-- `queue` holds the number where the source holds the pointer. The runtime and the scheduler choose
-- when a timer expires, which starts the goroutine of its function, and when that goroutine gets the
-- mutex: `expire` and `run_timer` are the two moments. Between them the debouncer can be called.
pub mod Cases
pub mod Invariant
pub mod Race
pub mod Early
pub mod Once
pub mod Runs
use wifi_presence.Base.{
  ℕ, suc, ◌+◌, Bool, true, false, Option, none, some, List, [], ◌∷◌, if◌then◌else◌, leb,
}
use wifi_presence.Base.Maps.{Map, lookup, insert, erase, nat_key}
use wifi_presence.Presence.Mac.{Mac, mac_key}

-- `armed`: waits to expire; `fired n`: its goroutine was started at time `n`; `stopped`: by `Stop`;
-- `done`: its function has passed the critical section.
pub data Phase : Type 0 where
  armed : Phase
  fired : ℕ → Phase
  stopped : Phase
  done : Phase

-- A timer and the variables that its function captures; a nil callback is `none`.
pub record Timer (A : Type 0) : Type 0 where
  pub mac : Mac
  pub cb : Option A
  pub due : ℕ
  pub phase : Phase

-- `type debouncer struct`, with the runtime's timers. `created` counts the timers made so far.
pub record Debouncer (A : Type 0) : Type 0 where
  pub debounce : ℕ
  pub queue : Map Mac ℕ
  pub timers : Map ℕ (Timer A)
  pub created : ℕ

module _ {A : Type 0} where
  -- `newDebouncer`.
  unfoldable pub new_debouncer : ℕ → Debouncer A
  new_debouncer debounce = record { debounce = debounce; queue = []; timers = []; created = 0 }

  abbrev pub set_phase : ℕ → Timer A → Phase → Debouncer A → Debouncer A
  set_phase t timer p d = record d { timers = insert t (record timer { phase = p }) d.timers }

  -- `t.Stop()`: true where the call keeps the timer from expiring.
  unfoldable pub stop_in : Phase → ℕ → Timer A → Debouncer A → Debouncer A × Bool
  stop_in armed t timer d = (set_phase t timer stopped d, true)
  stop_in _ t timer d = (d, false)

  unfoldable pub stop : ℕ → Debouncer A → Debouncer A × Bool
  unfolding stop_in
  stop t d = elim (lookup t d.timers) [
    | none ↦ (d, false)
    | some timer ↦ stop_in timer.phase t timer d
  ]

  -- `cancel`: the stop of the queued timer, if any, and then the `delete`.
  unfoldable pub cancel : Mac → Debouncer A → Debouncer A × Bool
  unfolding stop
  cancel mac d = elim (lookup mac d.queue) [
    | none ↦ (record d { queue = erase mac d.queue }, false)
    | some t ↦
        let (d', cancelled) = stop t d in (record d' { queue = erase mac d'.queue }, cancelled)
  ]

  -- `enqueue`, called at time `now`.
  unfoldable pub enqueue : ℕ → Mac → Option A → Debouncer A → Debouncer A × Bool
  enqueue now mac cb d = elim (lookup mac d.queue) [
    | some t ↦ (d, false)
    | none ↦ (
      record d {
        queue = insert mac d.created d.queue;
        timers =
            insert d.created (record { mac = mac; cb = cb; due = now + d.debounce; phase = armed })
              d.timers;
        created = suc d.created;
      },
      true,
    )
  ]

  -- The runtime starts the function of an armed timer that is due.
  unfoldable pub expire_in : Phase → ℕ → ℕ → Timer A → Debouncer A → Debouncer A
  expire_in armed now t timer d = if leb timer.due now then set_phase t timer (fired now) d else d
  expire_in _ now t timer d = d

  unfoldable pub expire : ℕ → ℕ → Debouncer A → Debouncer A
  unfolding expire_in
  expire now t d = elim (lookup t d.timers) [
    | none ↦ d
    | some timer ↦ expire_in timer.phase now t timer d
  ]

  -- The function that `enqueue` gives to `AfterFunc`: the critical section, and the callback that it
  -- calls once the mutex is released.
  unfoldable pub timer_function : ℕ → Timer A → Debouncer A → Debouncer A × Option A
  timer_function t timer d =
      let d' = set_phase t timer done d in
      elim (lookup timer.mac d.queue) [
        | none ↦ (d', none)
        | some _ ↦ (record d' { queue = erase timer.mac d.queue }, timer.cb)
      ]

  unfoldable pub run_in : Phase → ℕ → Timer A → Debouncer A → Debouncer A × Option A
  unfolding timer_function
  run_in (fired n) t timer d = timer_function t timer d
  run_in _ t timer d = (d, none)

  -- The goroutine of timer `t`, if there is one, gets the mutex.
  unfoldable pub run_timer : ℕ → Debouncer A → Debouncer A × Option A
  unfolding run_in
  run_timer t d = elim (lookup t d.timers) [
    | none ↦ (d, none)
    | some timer ↦ run_in timer.phase t timer d
  ]
