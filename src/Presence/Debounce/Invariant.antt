-- ===== src/Presence/Debounce/Invariant.antt =====
-- What holds of a debouncer after any sequence of calls, expiries and callbacks.
use wifi_presence.Base.{
  ℕ, ◌≤◌, ◌<◌, ◌≡◌, ◌≢◌, ◌⊎◌, inl, inr, sym, ap, ◌∙◌, arith, Option, none, some, if◌then◌else◌,
  Option-cases, Bool-cases, ◌==◌,
}
use mathlib.Core.Path.{subst}
use native.Mathlib.Decide.{ℕ_discrete}
use wifi_presence.Base.Maps.{lookup, insert, erase, nat_key, lookup-insert, lookup-erase}
use wifi_presence.Presence.Mac.{Mac, mac_key, mac_eq, mac_eq_iff}
use wifi_presence.Presence.Debounce.{
  Phase, armed, fired, stopped, done, Timer, Debouncer, new_debouncer, set_phase, cancel, enqueue,
  expire, run_timer,
}
use wifi_presence.Presence.Debounce.Cases.{
  unqueue, cancel_cases, expire_cases, run_cases, added, with_added, enqueue_cases,
}

-- A timer that may still come to its critical section.
abbrev pub IsLive : Phase → Type 0
IsLive armed = Unit
IsLive (fired n) = Unit
IsLive _ = ⊥

module _ {A : Type 0} where
  -- What a queue entry says of its timer.
  pub record Queued (mac : Mac) (timer : Timer A) : Type 0 where
    pub same_mac : timer.mac ≡ mac
    pub live : IsLive timer.phase

  pub record Inv (d : Debouncer A) : Type 0 where
    pub fresh : (t : ℕ) {timer : Timer A} → lookup t d.timers ≡ some timer → t < d.created
    pub known : (mac : Mac) {t : ℕ} → lookup mac d.queue ≡ some t → lookup t d.timers ≢ none
    pub queued :
        (mac : Mac) {t : ℕ} {timer : Timer A}
        → lookup mac d.queue ≡ some t
        → lookup t d.timers ≡ some timer
        → Queued mac timer
    pub on_time :
        (t : ℕ) {timer : Timer A} {n : ℕ}
        → lookup t d.timers ≡ some timer
        → timer.phase ≡ fired n
        → timer.due ≤ n

  pub new_debouncer-Inv : (debounce : ℕ) → Inv (new_debouncer debounce)
  unfolding new_debouncer lookup
  new_debouncer-Inv debounce = record {
    fresh = λ t p. cc;
    known = λ mac p. cc;
    queued = λ mac p q. cc;
    on_time = λ t p q. cc;
  }

  -- `delete(c.queue, mac)` alone.
  erase-Inv : (mac : Mac) (d : Debouncer A) → Inv d → Inv (record d { queue = erase mac d.queue })
  erase-Inv mac d v = record {
    fresh = v.fresh;
    known = λ m {t} p. v.known m (ground (arith, lookup-erase mac m d.queue));
    queued = λ m {t} {timer} p q. v.queued m (ground (arith, lookup-erase mac m d.queue)) q;
    on_time = v.on_time;
  }

  -- A change of phase keeps the invariant, where a queued timer stays live and a fired one was due.
  set_phase-Inv :
      (t : ℕ) (timer : Timer A) (p : Phase) (d : Debouncer A)
      → lookup t d.timers ≡ some timer
      → ((mac : Mac) → lookup mac d.queue ≡ some t → IsLive p)
      → ((n : ℕ) → p ≡ fired n → timer.due ≤ n)
      → Inv d
      → Inv (set_phase t timer p d)
  set_phase-Inv t timer p d e live ontime v = record {
    fresh = λ u {timer = w} h. elim (split u) [
      | inl (same, at) ↦ ground (arith, v.fresh t e)
      | inr (ne, at) ↦ v.fresh u (sym at ∙ h)
    ];
    known = λ mac {t = u} h n. elim (split u) [
      | inl (same, at) ↦ cc
      | inr (ne, at) ↦ v.known mac h (sym at ∙ n)
    ];
    queued = λ mac {t = u} {timer = w} h k. elim (split u) [
      | inl (same, at) ↦
          let q = v.queued mac (h ∙ ap some (sym same)) e in
          let l = live mac (h ∙ ap some (sym same)) in
          let w_eq : record timer { phase = p } ≡ w = cc in
          subst (Queued mac) w_eq (record { same_mac = q.same_mac; live = l })
      | inr (ne, at) ↦ v.queued mac h (sym at ∙ k)
    ];
    on_time = λ u {timer = w} {n} h k. elim (split u) [
      | inl (same, at) ↦
          let w_eq : w ≡ record timer { phase = p } = cc in
          rw w_eq (ontime n (sym (ap (λ (x : Timer A). x.phase) w_eq) ∙ k))
      | inr (ne, at) ↦ v.on_time u (sym at ∙ h) k
    ];
  }
    where
      split :
          (u : ℕ)
          → ((t ≡ u)
              × (lookup u (set_phase t timer p d).timers ≡ some (record timer { phase = p })))
            ⊎ ((t ≢ u) × (lookup u (set_phase t timer p d).timers ≡ lookup u d.timers))
      split u = elim (ℕ_discrete t u) [
        | yes same ↦
            inl (same, ground (arith, lookup-insert t u (record timer { phase = p }) d.timers))
        | no ne ↦ inr (ne, ground (arith, lookup-insert t u (record timer { phase = p }) d.timers))
      ]

  set_phase_dead-Inv :
      (t : ℕ) (timer : Timer A) (p : Phase) (d : Debouncer A)
      → lookup t d.timers ≡ some timer
      → ((n : ℕ) → p ≢ fired n)
      → Inv d
      → Inv (set_phase t timer p (unqueue timer.mac d))
  set_phase_dead-Inv t timer p d e dead v =
      set_phase-Inv t timer p (unqueue timer.mac d) e (λ mac h. absurd (clash mac h))
        (λ n h. absurd (dead n h)) (erase-Inv timer.mac d v)
    where
      clash : (mac : Mac) → lookup mac (erase timer.mac d.queue) ≡ some t → ⊥
      clash mac h = elim (Bool-cases (mac_eq timer.mac mac)) [
        | inl same ↦ ground (arith, lookup-erase timer.mac mac d.queue)
        | inr ne ↦
            let old : lookup mac d.queue ≡ some t =
              ground (arith, lookup-erase timer.mac mac d.queue) in
            let m = (v.queued mac old e).same_mac in ground (arith, mac_eq_iff timer.mac mac)
      ]

  pub cancel-Inv : (mac : Mac) (d : Debouncer A) → Inv d → Inv (cancel mac d).0
  cancel-Inv mac d v = elim (cancel_cases mac d) [
    | inl (t, timer, e, (k, p), r) ↦
        let m = (v.queued mac e k).same_mac in
        let dead = set_phase_dead-Inv t timer stopped d k (λ n h. cc) v in
        rw r (subst (λ a. Inv (set_phase t timer stopped (unqueue a d))) m dead)
    | inr r ↦ rw r (erase-Inv mac d v)
  ]

  pub expire-Inv : (now t : ℕ) (d : Debouncer A) → Inv d → Inv (expire now t d)
  expire-Inv now t d v = elim (expire_cases now t d) [
    | inl (timer, (k, p), due, r) ↦
        rw r (set_phase-Inv t timer (fired now) d k (λ mac h. tt) (λ n h. ground arith) v)
    | inr r ↦ rw r v
  ]

  pub run_timer-Inv : (t : ℕ) (d : Debouncer A) → Inv d → Inv (run_timer t d).0
  run_timer-Inv t d v = elim (run_cases t d) [
    | inl (timer, n, u, (k, p), e, r) ↦ rw r (set_phase_dead-Inv t timer done d k (λ n h. cc) v)
    | inr (inl (timer, n, (k, p), e, r)) ↦ rw r (
        set_phase-Inv t timer done d k (λ mac h. absurd (ground (arith, v.queued mac h k)))
          (λ n h. cc) v)
    | inr (inr r) ↦ rw r v
  ]

  not-lookup-created : (d : Debouncer A) → Inv d → lookup d.created d.timers ≡ none
  not-lookup-created d v = elim (Option-cases (lookup d.created d.timers)) [
    | inl e ↦ e
    | inr (w, e) ↦ absurd (omega (arith, v.fresh d.created e))
  ]

  with_added-Inv :
      (now : ℕ) (mac : Mac) (cb : Option A) (d : Debouncer A)
      → Inv d
      → Inv (with_added now mac cb d)
  with_added-Inv now mac cb d v = record {
    fresh = λ u {timer = w} h. ground (arith, at_timer u, v.fresh u {timer = w});
    known = λ m {t = u} h n. ground (arith, at_timer u, at_mac m, v.known m {t = u});
    queued = λ m {t = u} {timer = w} h k. ground (
      arith,
      at_timer u,
      at_mac m,
      v.known m {t = u},
      v.queued m {t = u} {timer = w},
      mac_eq_iff mac m,
      not-lookup-created d v,
    );
    on_time = λ u {timer = w} {n} h k. ground (arith, at_timer u, v.on_time u {timer = w} {n = n});
  }
    where
      at_timer :
          (u : ℕ)
          → lookup u (insert d.created (added now mac cb d) d.timers)
            ≡ (if d.created == u then some (added now mac cb d) else lookup u d.timers)
      at_timer u = lookup-insert d.created u (added now mac cb d) d.timers

      at_mac :
          (m : Mac)
          → lookup m (insert mac d.created d.queue)
            ≡ (if mac_eq mac m then some d.created else lookup m d.queue)
      at_mac m = lookup-insert mac m d.created d.queue

  pub enqueue-Inv :
      (now : ℕ) (mac : Mac) (cb : Option A) (d : Debouncer A) → Inv d → Inv (enqueue now mac cb d).0
  enqueue-Inv now mac cb d v = elim (enqueue_cases now mac cb d) [
    | inl (e, r) ↦ rw r (with_added-Inv now mac cb d v)
    | inr (t, e, r) ↦ rw r v
  ]
