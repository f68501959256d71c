-- ===== src/Presence/Debounce/Early.antt =====
-- No callback before its debounce time has passed.
use native.Mathlib.Decide.{ℕ_discrete}
use wifi_presence.Base.{
  ℕ, ◌+◌, ◌≤◌, ◌≡◌, refl, ◌∙◌, ap, inl, inr, arith, Option, none, some, List, [], ◌∷◌,
}
use wifi_presence.Base.Maps.{lookup, nat_key, lookup-insert, lookup-insert_self}
use wifi_presence.Presence.Mac.{Mac, mac_key}
use wifi_presence.Presence.Debounce.{
  Phase, fired, stopped, done, Timer, Debouncer, set_phase, enqueue,
}
use wifi_presence.Presence.Debounce.Cases.{
  unqueue, cancel_cases, expire_cases, run_cases, added, enqueue_cases,
}
use wifi_presence.Presence.Debounce.Invariant.{Inv, enqueue-Inv}
use wifi_presence.Presence.Debounce.Runs.{
  Action, cancels, enqueues, expires, runs, act, act_all, act-Inv, act_all-Inv,
}
use wifi_presence.Presence.Debounce.Once.{lookup-set_phase}

module _ {A : Type 0} where
  -- Timer `t` is there, and is due at `due`.
  abbrev IsDueAt : ℕ → ℕ → Debouncer A → Type 0
  IsDueAt t due d = (timer : Timer A) × (lookup t d.timers ≡ some timer) × (timer.due ≡ due)

  set_phase-IsDueAt :
      (u t due : ℕ) (w : Timer A) (p : Phase) (d : Debouncer A)
      → lookup u d.timers ≡ some w
      → IsDueAt t due d
      → IsDueAt t due (set_phase u w p d)
  set_phase-IsDueAt u t due w p d k (timer, e, same) = elim (ℕ_discrete u t) [
    | yes eq ↦ (
      record w { phase = p },
      ground (arith, lookup-set_phase u t w p d),
      let it : w ≡ timer = ground (arith, k, e) in ap (λ (x : Timer A). x.due) it ∙ same,
    )
    | no ne ↦ (timer, ground (arith, lookup-set_phase u t w p d), same)
  ]

  -- No action changes when a timer is due.
  act-IsDueAt :
      (a : Action A) (d : Debouncer A) (t due : ℕ)
      → Inv d
      → IsDueAt t due d
      → IsDueAt t due (act a d)
  unfolding act
  act-IsDueAt (cancels mac) d t due v i = elim (cancel_cases mac d) [
    | inl (u, w, q, (k, p), r) ↦
        rw (act, r) (set_phase-IsDueAt u t due w stopped (unqueue mac d) k i)
    | inr r ↦ rw (act, r) i
  ]
  act-IsDueAt (enqueues now mac cb) d t due v (timer, e, same) = elim (enqueue_cases now mac cb d) [
    | inl (q, r) ↦
        rw (act, r)
          (
            timer,
            ground (arith, v.fresh t e, lookup-insert d.created t (added now mac cb d) d.timers),
            same,
          )
    | inr (u, q, r) ↦ rw (act, r) (timer, e, same)
  ]
  act-IsDueAt (expires now u) d t due v i = elim (expire_cases now u d) [
    | inl (w, (k, p), late, r) ↦ rw (act, r) (set_phase-IsDueAt u t due w (fired now) d k i)
    | inr r ↦ rw (act, r) i
  ]
  act-IsDueAt (runs u) d t due v i = elim (run_cases u d) [
    | inl (w, n, x, (k, p), q, r) ↦
        rw (act, r) (set_phase-IsDueAt u t due w done (unqueue w.mac d) k i)
    | inr (inl (w, n, (k, p), q, r)) ↦ rw (act, r) (set_phase-IsDueAt u t due w done d k i)
    | inr (inr r) ↦ rw (act, r) i
  ]

  act_all-IsDueAt :
      (acts : List (Action A)) (d : Debouncer A) (t due : ℕ)
      → Inv d
      → IsDueAt t due d
      → IsDueAt t due (act_all acts d)
  unfolding act_all
  act_all-IsDueAt [] d t due v i = i
  act_all-IsDueAt (a ∷ acts) d t due v i =
      act_all-IsDueAt acts (act a d) t due (act-Inv a d v) (act-IsDueAt a d t due v i)

  enqueue-IsDueAt :
      (now : ℕ) (mac : Mac) (cb : Option A) (d : Debouncer A)
      → lookup mac d.queue ≡ none
      → IsDueAt d.created (now + d.debounce) (enqueue now mac cb d).0
  enqueue-IsDueAt now mac cb d q = elim (enqueue_cases now mac cb d) [
    | inl (e, r) ↦
        rw r (added now mac cb d, lookup-insert_self d.created (added now mac cb d) d.timers, refl)
    | inr (u, e, r) ↦ absurd (ground arith)
  ]

  on_time :
      (t due n : ℕ) (d : Debouncer A) (timer : Timer A)
      → Inv d
      → lookup t d.timers ≡ some timer
      → timer.phase ≡ fired n
      → IsDueAt t due d
      → due ≤ n
  on_time t due n d timer v l p (w, e, same) =
      let it : w ≡ timer = ground (arith, l, e) in
      let late = v.on_time t l p in ground (arith, ap (λ (x : Timer A). x.due) it)

  -- A callback is enqueued at time `now` for an address with none, in a debouncer with the invariant;
  -- then anything is done, by callers, the runtime and the scheduler, in any order. Where the timer of
  -- the callback has then started its function, at time `n`, the debounce time had passed by `n`.
  pub never_early :
      (now : ℕ) (mac : Mac) (cb : Option A) (d : Debouncer A) (acts : List (Action A)) (n : ℕ)
      (timer : Timer A)
      → Inv d
      → lookup mac d.queue ≡ none
      → lookup d.created (act_all acts (enqueue now mac cb d).0).timers ≡ some timer
      → timer.phase ≡ fired n
      → now + d.debounce ≤ n
  never_early now mac cb d acts n timer v q l p =
      let d1 = (enqueue now mac cb d).0 in
      let v1 = enqueue-Inv now mac cb d v in
      on_time d.created (now + d.debounce) n (act_all acts d1) timer (act_all-Inv acts d1 v1) l p
        (act_all-IsDueAt acts d1 d.created (now + d.debounce) v1 (enqueue-IsDueAt now mac cb d q))
