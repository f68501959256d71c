-- ===== src/Presence/Debounce/Cases.antt =====
-- The branches of the debouncer's operations as equations, and as case distinctions.
use wifi_presence.Base.{
  ℕ, suc, ◌+◌, ◌≤◌, ◌≡◌, ◌⊎◌, inl, inr, refl, arith, true, false, Option, none, some, Option-cases,
  leb, Bool-cases,
}
use wifi_presence.Base.Maps.{lookup, insert, erase, nat_key}
use wifi_presence.Presence.Mac.{Mac, mac_key}
use wifi_presence.Presence.Debounce.{
  Phase, armed, fired, stopped, done, Timer, Debouncer, set_phase, cancel, enqueue, expire,
  run_timer,
}

module _ {A : Type 0} where
  abbrev pub unqueue : Mac → Debouncer A → Debouncer A
  unqueue mac d = record d { queue = erase mac d.queue }

  -- Timer `t` exists, in phase `p`.
  abbrev pub Holds : ℕ → Timer A → Phase → Debouncer A → Type 0
  Holds t timer p d = (lookup t d.timers ≡ some timer) × (timer.phase ≡ p)

  abbrev CancelCase : Mac → Debouncer A → Type 0
  CancelCase mac d =
      ((t : ℕ) × (timer : Timer A) × (lookup mac d.queue ≡ some t)
        × Holds t timer armed d
        × (cancel mac d ≡ (set_phase t timer stopped (unqueue mac d), true)))
      ⊎ (cancel mac d ≡ (unqueue mac d, false))

  cancel_phase :
      (mac : Mac) (d : Debouncer A) (t : ℕ) (timer : Timer A) (p : Phase)
      → Holds t timer p d
      → lookup mac d.queue ≡ some t
      → CancelCase mac d
  unfolding cancel
  cancel_phase mac d t timer armed h e = inl (t, timer, e, h, ground arith)
  cancel_phase mac d t timer _ h e = inr (ground arith)

  -- `cancel` stops the queued timer if it is armed, and else only forgets the queue's entry.
  pub cancel_cases : (mac : Mac) (d : Debouncer A) → CancelCase mac d
  cancel_cases mac d = elim (Option-cases (lookup mac d.queue)) [
    | inl e ↦ inr (unfold cancel in ground arith)
    | inr (t, e) ↦ elim (Option-cases (lookup t d.timers)) [
      | inl k ↦ inr (unfold cancel in ground arith)
      | inr (timer, k) ↦ cancel_phase mac d t timer timer.phase (k, refl) e
    ]
  ]

  abbrev ExpireCase : ℕ → ℕ → Debouncer A → Type 0
  ExpireCase now t d =
      ((timer : Timer A) × Holds t timer armed d
        × (timer.due ≤ now)
        × (expire now t d ≡ set_phase t timer (fired now) d))
      ⊎ (expire now t d ≡ d)

  expire_phase :
      (now t : ℕ) (d : Debouncer A) (timer : Timer A) (p : Phase)
      → Holds t timer p d
      → ExpireCase now t d
  unfolding expire
  expire_phase now t d timer armed h = elim (Bool-cases (leb timer.due now)) [
    | inl e ↦ inl (timer, h, ground arith, ground arith)
    | inr e ↦ inr (ground arith)
  ]
  expire_phase now t d timer _ h = inr (ground arith)

  -- Only an armed timer that is due expires.
  pub expire_cases : (now t : ℕ) (d : Debouncer A) → ExpireCase now t d
  expire_cases now t d = elim (Option-cases (lookup t d.timers)) [
    | inl k ↦ inr (unfold expire in ground arith)
    | inr (timer, k) ↦ expire_phase now t d timer timer.phase (k, refl)
  ]

  -- The critical section of a started timer: it takes whatever entry the queue has for its address.
  abbrev RunCase : ℕ → Debouncer A → Type 0
  RunCase t d =
      ((timer : Timer A) × (n : ℕ) × (u : ℕ) × Holds t timer (fired n) d
        × (lookup timer.mac d.queue ≡ some u)
        × (run_timer t d ≡ (set_phase t timer done (unqueue timer.mac d), timer.cb)))
      ⊎ ((timer : Timer A) × (n : ℕ) × Holds t timer (fired n) d
          × (lookup timer.mac d.queue ≡ none)
          × (run_timer t d ≡ (set_phase t timer done d, none)))
      ⊎ (run_timer t d ≡ (d, none))

  run_phase :
      (t : ℕ) (d : Debouncer A) (timer : Timer A) (p : Phase) → Holds t timer p d → RunCase t d
  unfolding run_timer
  run_phase t d timer (fired n) h = elim (Option-cases (lookup timer.mac d.queue)) [
    | inl e ↦ inr (inl (timer, n, h, e, ground arith))
    | inr (u, e) ↦ inl (timer, n, u, h, e, ground arith)
  ]
  run_phase t d timer _ h = inr (inr (ground arith))

  pub run_cases : (t : ℕ) (d : Debouncer A) → RunCase t d
  run_cases t d = elim (Option-cases (lookup t d.timers)) [
    | inl k ↦ inr (inr (unfold run_timer in ground arith))
    | inr (timer, k) ↦ run_phase t d timer timer.phase (k, refl)
  ]

  -- A new timer, for an address that has none queued.
  abbrev pub added : ℕ → Mac → Option A → Debouncer A → Timer A
  added now mac cb d = record { mac = mac; cb = cb; due = now + d.debounce; phase = armed }

  abbrev pub with_added : ℕ → Mac → Option A → Debouncer A → Debouncer A
  with_added now mac cb d = record d {
    queue = insert mac d.created d.queue;
    timers = insert d.created (added now mac cb d) d.timers;
    created = suc d.created;
  }

  -- `enqueue` makes a timer unless the address has one queued.
  pub enqueue_cases :
      (now : ℕ) (mac : Mac) (cb : Option A) (d : Debouncer A)
      → ((lookup mac d.queue ≡ none) × (enqueue now mac cb d ≡ (with_added now mac cb d, true)))
        ⊎ ((t : ℕ) × (lookup mac d.queue ≡ some t) × (enqueue now mac cb d ≡ (d, false)))
  unfolding enqueue
  enqueue_cases now mac cb d = elim (Option-cases (lookup mac d.queue)) [
    | inl e ↦ inl (e, ground arith)
    | inr (t, e) ↦ inr (t, e, ground arith)
  ]
