-- ===== src/Presence/Ending/Reports.antt =====
-- Where the error that `Run` returns comes from.
use mathlib.Core.List.{append-nil}
use wifi_presence.Base.{
  ℕ, ◌≡◌, ◌≢◌, ◌⊎◌, ◌∙◌, refl, sym, ap, arith, true, Option, none, some, List, [], ◌∷◌, ◌++◌, inl,
  inr, ==_iff, Option-cases,
}
use wifi_presence.Base.Errors.{Error}
use wifi_presence.Presence.Ending.{
  Group, IsErrgroup, Running, ended, send_to, wait_to, next_error, rest_errors, send, take_error,
  Step, context_ends, returns, fails, receives, leaves, started, Reach, here, next,
}

-- The errors in the channel and of those that wait.
abbrev pending : Option Error → List Error → List Error
pending none blocked = blocked
pending (some e) blocked = e ∷ blocked

module _ {G : Type 0} (g : Group G) (law : IsErrgroup g) where
  -- An error was returned by `SubscribeConfig` or an `Attach`, or it is the first that a callback sent and
  -- the watcher returned it.
  pub data Reported (r : Running G) (e : Error) : Type 0 where
    by_worker : (i : ℕ) → r.workers i ≡ some (some e) → Reported r e
    by_callback : (es : List Error) → r.watcher ≡ some (some e) → r.sent ≡ e ∷ es → Reported r e

  record Inv (r : Running G) : Type 0 where
    reported : (e : Error) → g.result r.group ≡ some e → Reported r e
    queued : r.watcher ≡ none → r.sent ≡ pending r.errs r.blocked
    waits : r.errs ≡ none → r.blocked ≡ []

  Reported-started : Inv (started g)
  Reported-started = record {
    reported = λ e h. absurd (ground (arith, law.empty_result));
    queued = λ h. refl;
    waits = λ h. refl;
  }

  done-cases :
      (o : Option Error) (x : G) (e : Error)
      → g.result (g.done o x) ≡ some e
      → (g.result x ≡ some e) ⊎ (o ≡ some e)
  done-cases none x e h = inl (sym (law.done_none x) ∙ h)
  done-cases (some y) x e h = elim (Option-cases (g.result x)) [
    | inl n ↦ inr (ground (arith, law.done_some y x))
    | inr (z, q) ↦ inl (ground (arith, law.done_some y x))
  ]

  -- An error stays reported.
  Reported-moves :
      (r s : Running G) (e : Error)
      → ((i : ℕ) → r.workers i ≡ some (some e) → s.workers i ≡ some (some e))
      → (r.watcher ≡ some (some e) → s.watcher ≡ some (some e))
      → (more : List Error) → s.sent ≡ r.sent ++ more
      → Reported r e
      → Reported s e
  Reported-moves r s e w v more q (by_worker i h) = by_worker i (w i h)
  Reported-moves r s e w v more q (by_callback es h h') =
      by_callback (es ++ more) (v h) (q ∙ ap (λ l. l ++ more) h')

  send-pending :
      (o : Option Error) (blocked : List Error) (e : Error)
      → (o ≡ none → blocked ≡ [])
      → pending o blocked ++ e ∷ [] ≡ pending (send_to o e) (wait_to o blocked e)
  send-pending none blocked e h = rw (h refl) refl
  send-pending (some x) blocked e h = refl

  rest-next : (blocked : List Error) → next_error blocked ≡ none → rest_errors blocked ≡ []
  rest-next [] h = refl
  rest-next (e ∷ es) h = absurd (ground (arith, h))

  Step-Inv : {r s : Running G} → Inv r → Step g r s → Inv s
  unfolding send take_error
  Step-Inv {r} v context_ends = record {
    reported = λ e h.
        Reported-moves r (record r { group = g.end_context r.group }) e (λ i q. q) (λ q. q) []
          (sym (append-nil r.sent)) (v.reported e (sym (law.cancel_result r.group) ∙ h));
    queued = v.queued;
    waits = v.waits;
  }
  Step-Inv {r} v (returns i o h) =
      let s : Running G = record r { workers = ended r.workers i o; group = g.done o r.group } in
      record {
        reported = λ e q. elim (done-cases o r.group e q) [
          | inl before ↦
              Reported-moves r s e (λ j w. ground (arith, ==_iff i j, h, w)) (λ w. w) []
                (sym (append-nil r.sent)) (v.reported e before)
          | inr now ↦ by_worker i (ground (arith, ==_iff i i, now))
        ];
        queued = v.queued;
        waits = v.waits;
      }
  Step-Inv {r} v (fails e) = record {
    reported =
        λ x h. Reported-moves r (send g e r) x (λ i q. q) (λ q. q) (e ∷ []) refl (v.reported x h);
    queued = λ h. ap (λ l. l ++ e ∷ []) (v.queued h) ∙ send-pending r.errs r.blocked e v.waits;
    waits = λ h. elim (Option-cases r.errs) [
      | inl n ↦ absurd (ground arith)
      | inr (x, q) ↦ absurd (ground arith)
    ];
  }
  Step-Inv {r} v (receives e h h') =
      let s = take_error g e r in
      record {
        reported = λ x q. elim (done-cases (some e) r.group x q) [
          | inl before ↦
              Reported-moves r s x (λ j w. w) (λ w. absurd (ground (arith, h, w))) []
                (sym (append-nil r.sent)) (v.reported x before)
          | inr now ↦
              by_callback r.blocked (ap some now)
                (v.queued h ∙ ap (λ o. pending o r.blocked) (h' ∙ now))
        ];
        queued = λ q. absurd (ground (arith, q));
        waits = rest-next r.blocked;
      }
  Step-Inv {r} v (leaves h h') =
      let s : Running G = record r { watcher = some none; group = g.done none r.group } in
      record {
        reported = λ x q.
            Reported-moves r s x (λ j w. w) (λ w. absurd (ground (arith, h, w))) []
              (sym (append-nil r.sent)) (v.reported x (sym (law.done_none r.group) ∙ q));
        queued = λ q. absurd (ground (arith, q));
        waits = v.waits;
      }

  Reach-Inv : {r : Running G} → Reach g (started g) r → Inv r
  Reach-Inv here = Reported-started
  Reach-Inv (next p q) = Step-Inv (Reach-Inv p) q

  -- Whatever the goroutines and callbacks do, in every order: an error that `Run` returns is one that
  -- `SubscribeConfig` or an `Attach` returned, or the first one that a callback sent, which the watcher
  -- returned.
  pub result-Reported :
      {r : Running G} (e : Error) → Reach g (started g) r → g.result r.group ≡ some e → Reported r e
  result-Reported e p h = (Reach-Inv p).reported e h

  -- While the watcher runs, once a callback has sent an error the watcher can receive one, and then the
  -- context of the group has ended and `Run` returns an error.
  pub sent_ends :
      {r : Running G}
      → Reach g (started g) r
      → r.watcher ≡ none
      → r.sent ≢ []
      → (s : Running G) × Step g r s × (g.is_cancelled s.group ≡ true) × (g.result s.group ≢ none)
  unfolding take_error
  sent_ends {r} p h ne =
      let v = Reach-Inv p in
      elim (Option-cases r.errs) [
        | inl n ↦ absurd (ne (v.queued h ∙ ap (λ o. pending o r.blocked) n ∙ v.waits n))
        | inr (e, q) ↦ (
          take_error g e r,
          receives e h q,
          law.done_cancels e r.group,
          ground (arith, law.done_some e r.group),
        )
      ]
