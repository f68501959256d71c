-- ===== src/Presence/Debounce/Race.antt =====
-- The critical section of a timer's function looks for an entry of its address, not for itself.
use wifi_presence.Base.{ℕ, ◌≡◌, inl, inr, refl, ap, arith, Bool, false, Option, none, some, [], ◌∷◌}
use wifi_presence.Base.Maps.{
  lookup, erase, nat_key, lookup-insert, lookup-insert_self, lookup-erase_self,
}
use wifi_presence.Presence.Mac.{mac_key}
use wifi_presence.Presence.Debounce.{
  fired, done, Timer, Debouncer, set_phase, cancel, enqueue, expire, run_timer,
}
use wifi_presence.Presence.Debounce.Cases.{
  unqueue, Holds, cancel_cases, expire_cases, added, with_added, enqueue_cases,
}
use wifi_presence.Presence.Debounce.Invariant.{Inv}
use wifi_presence.Presence.Debounce.Runs.{executed, executed_queued, executed_unqueued}
use wifi_presence.Presence.Debounce.Once.{lookup-set_phase}

module _ {A : Type 0} where
  -- The states of the race: `t` is queued for its address and its goroutine has been started, so it
  -- waits for the mutex.
  pub record Waiting (t : ℕ) (timer : Timer A) (d : Debouncer A) : Type 0 where
    pub started : ℕ
    pub holds : Holds t timer (fired started) d
    pub queued : lookup timer.mac d.queue ≡ some t

  -- `cancel` comes too late to stop the timer.
  cancel_late :
      (t : ℕ) (timer : Timer A) (d : Debouncer A)
      → Waiting t timer d
      → cancel timer.mac d ≡ (unqueue timer.mac d, false)
  cancel_late t timer d w = elim (cancel_cases timer.mac d) [
    | inl (u, x, e, (k, p), r) ↦ absurd (let (a, b) = w.holds in let q = w.queued in ground arith)
    | inr r ↦ r
  ]

  -- A timer that waits for the mutex is not stopped by `cancel`, which returns false; as the
  -- address is then not queued, the timer's function executes nothing if it comes next.
  pub cancel_late_silent :
      (t : ℕ) (timer : Timer A) (d : Debouncer A)
      → Waiting t timer d
      → ((cancel timer.mac d).1 ≡ false) × (executed t (cancel timer.mac d).0 ≡ [])
  cancel_late_silent t timer d w =
      let gone = lookup-erase_self timer.mac d.queue in
      rw (cancel_late t timer d w)
        (refl, executed_unqueued t timer (unqueue timer.mac d) w.holds.0 gone)

  executed-expire :
      (now t : ℕ) (timer : Timer A) (d : Debouncer A)
      → lookup t d.timers ≡ some timer
      → lookup timer.mac d.queue ≡ none
      → executed t (expire now t d) ≡ []
  executed-expire now t timer d e q = elim (expire_cases now t d) [
    | inl (w, (k, p), due, r) ↦
        let same : timer ≡ w = cc in
        rw r (
          executed_unqueued t (record w { phase = fired now }) (set_phase t w (fired now) d)
            (ground (arith, lookup-set_phase t t w (fired now) d)) (rw (← same) q))
    | inr r ↦ rw r (executed_unqueued t timer d e q)
  ]

  -- The state of the race after `cancel` and `enqueue`.
  abbrev pub requeued : ℕ → Option A → Timer A → Debouncer A → Debouncer A
  requeued now cb timer d = (enqueue now timer.mac cb (cancel timer.mac d).0).0

  requeued_lem :
      (now t : ℕ) (cb : Option A) (timer : Timer A) (d : Debouncer A)
      → Waiting t timer d
      → requeued now cb timer d ≡ with_added now timer.mac cb (unqueue timer.mac d)
  requeued_lem now t cb timer d w =
      let gone = lookup-erase_self timer.mac d.queue in
      rw (cancel_late t timer d w, requeued)
        (elim (enqueue_cases now timer.mac cb (unqueue timer.mac d)) [
          | inl (e, r) ↦ rw r
          | inr (u, e, r) ↦ absurd (ground arith)
        ])

  -- In a debouncer with the invariant, where a timer with a callback waits for the mutex: after
  -- `cancel`, which returns false, and an `enqueue` for the same address, the timer's function
  -- executes the cancelled callback; and when the new timer expires, its own callback is not
  -- executed.
  pub cancelled_callback_runs :
      (t now later : ℕ) (cb : Option A) (timer : Timer A) (d : Debouncer A) {a : A}
      → Inv d
      → Waiting t timer d
      → timer.cb ≡ some a
      → let r = requeued now cb timer d in
        let r' = (run_timer t r).0 in
        ((cancel timer.mac d).1 ≡ false)
        × (executed t r ≡ record { timer = t; mac = timer.mac; cb = a } ∷ [])
        × (executed d.created (expire later d.created r') ≡ [])
  cancelled_callback_runs t now later cb timer d {a} v w c =
      let d1 = with_added now timer.mac cb (unqueue timer.mac d) in
      let new = added now timer.mac cb (unqueue timer.mac d) in
      let (held, p) = w.holds in
      let kept : lookup t d1.timers ≡ some timer =
        ground (arith, v.fresh t held, lookup-insert d.created t new d.timers) in
      let there : lookup timer.mac d1.queue ≡ some d.created =
        lookup-insert_self timer.mac d.created (erase timer.mac d.queue) in
      let (ran, left) = executed_queued t timer w.started d.created a d1 (kept, p) there c in
      rw (requeued_lem now t cb timer d w) (
        ap (λ (x : Debouncer A × Bool). x.1) (cancel_late t timer d w),
        ran,
        rw left (
            executed-expire later d.created new (set_phase t timer done (unqueue timer.mac d1))
              (ground (
                arith,
                v.fresh t held,
                lookup-set_phase t d.created timer done (unqueue timer.mac d1),
                lookup-insert d.created d.created new d.timers,
              ))
              (lookup-erase_self timer.mac d1.queue)),
      )
