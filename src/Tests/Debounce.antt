-- ===== src/Tests/Debounce.antt =====
-- Sequences of calls of a debouncer.
use wifi_presence.Base.{ℕ, ◌+◌, none, ◌≡◌, ◌≢◌, ◌≤◌, refl, true, false, some, List, [], ◌∷◌, All}
use wifi_presence.Base.Maps.{lookup, insert, nat_key}
use wifi_presence.Presence.Mac.{mac_key, mac_eq}
use wifi_presence.Presence.Debounce.{
  fired, Timer, Debouncer, new_debouncer, cancel, enqueue, expire, run_timer,
}
use wifi_presence.Presence.Debounce.Invariant.{Inv, new_debouncer-Inv}
use wifi_presence.Presence.Debounce.Runs.{
  Action, enqueues, expires, runs, Execution, executed, act, act_all, all_executions, reachable-Inv,
}
use wifi_presence.Presence.Debounce.Once.{cancel_effective}
use wifi_presence.Presence.Debounce.Early.{never_early}
use wifi_presence.Presence.Debounce.Race.{Waiting, requeued, cancelled_callback_runs}
use wifi_presence.Tests.Fixtures.{mac1}

-- Callbacks are numbers here.
abbrev one_queued : List (Action ℕ)
one_queued = enqueues 100 mac1 (some 7) ∷ []

abbrev one_waiting : List (Action ℕ)
one_waiting = enqueues 100 mac1 (some 7) ∷ expires 110 0 ∷ []

abbrev both_run : List (Action ℕ)
both_run =
    enqueues 100 mac1 (some 7) ∷ enqueues 101 mac1 (some 8) ∷ expires 110 0 ∷ runs 0 ∷ runs 0 ∷ []

not_queued : lookup mac1 (new_debouncer {A = ℕ} 10).queue ≡ none
unfolding new_debouncer lookup
not_queued = refl

-- The timer of the first callback, after a second one was refused and the first has expired at 110.
abbrev acts : List (Action ℕ)
acts = enqueues 101 mac1 (some 8) ∷ expires 105 0 ∷ expires 112 0 ∷ []

abbrev late : Timer ℕ
late = record { mac = mac1; due = 110; cb = some 7; phase = fired 112 }

has_expired :
    lookup 0 (act_all acts (enqueue 100 mac1 (some 7) (new_debouncer 10)).0).timers ≡ some late
unfolding act_all act enqueue expire new_debouncer lookup insert mac_eq
has_expired = refl

never_early_example : 100 + (new_debouncer {A = ℕ} 10).debounce ≤ 112
unfolding new_debouncer
never_early_example =
    never_early 100 mac1 (some 7) (new_debouncer 10) acts 112 late (new_debouncer-Inv 10) not_queued
      has_expired refl

abbrev queued : Debouncer ℕ
queued = act_all one_queued (new_debouncer 10)

abbrev waiting : Debouncer ℕ
waiting = act_all one_waiting (new_debouncer 10)

queued-Inv : Inv queued
queued-Inv = reachable-Inv 10 one_queued

waiting-Inv : Inv waiting
waiting-Inv = reachable-Inv 10 one_waiting

queued_cancels : (cancel mac1 queued).1 ≡ true
unfolding cancel lookup act_all act enqueue new_debouncer insert mac_eq
queued_cancels = refl

cancel_effective_example :
    (t : ℕ) × (lookup mac1 queued.queue ≡ some t)
    × ((acts : List (Action ℕ))
        → All (λ (x : Execution ℕ). x.timer ≢ t) (all_executions acts (cancel mac1 queued).0))
cancel_effective_example = cancel_effective mac1 queued queued-Inv queued_cancels

abbrev started : Timer ℕ
started = record { mac = mac1; cb = some 7; due = 110; phase = fired 110 }

started_waits : Waiting 0 started waiting
unfolding lookup act_all act expire enqueue new_debouncer insert mac_eq
started_waits = record { started = 110; holds = (refl, refl); queued = refl }

cancelled_callback_runs_example :
    let r = requeued 111 (some 8) started waiting in
    let r' = (run_timer 0 r).0 in
    ((cancel mac1 waiting).1 ≡ false)
    × (executed 0 r ≡ record { timer = 0; mac = mac1; cb = 7 } ∷ [])
    × (executed waiting.created (expire 121 waiting.created r') ≡ [])
cancelled_callback_runs_example =
    cancelled_callback_runs 0 111 121 (some 8) started waiting waiting-Inv started_waits refl
