-- ===== src/Presence/Ending/First.antt =====
-- The first error ends the group, and stays its result.
use wifi_presence.Base.{◌≡◌, ◌∙◌, refl, Option, none, some}
use wifi_presence.Base.Errors.{Error}
use wifi_presence.Presence.Ending.{
  Group, IsErrgroup, Running, Step, context_ends, returns, fails, receives, leaves, send,
  take_error, Reach, here, next,
}

module _ {G : Type 0} (g : Group G) (law : IsErrgroup g) where
  pub done-first :
      (o : Option Error) (x : G) (e : Error) → g.result x ≡ some e → g.result (g.done o x) ≡ some e
  done-first none x e h = law.done_none x ∙ h
  done-first (some y) x e h = law.done_some y x ∙ rw h refl

  pub done-empty : (e : Error) → g.result (g.done (some e) g.empty) ≡ some e
  done-empty e = law.done_some e g.empty ∙ rw law.empty_result refl

  Step-first :
      {r s : Running G} (e : Error)
      → Step g r s
      → g.result r.group ≡ some e
      → g.result s.group ≡ some e
  unfolding send take_error
  Step-first {r} e context_ends h = law.cancel_result r.group ∙ h
  Step-first {r} e (returns i o q) h = done-first o r.group e h
  Step-first e (fails x) h = h
  Step-first {r} e (receives x q q') h = done-first (some x) r.group e h
  Step-first {r} e (leaves q q') h = done-first none r.group e h

  pub Reach-first :
      {r s : Running G} (e : Error)
      → Reach g r s
      → g.result r.group ≡ some e
      → g.result s.group ≡ some e
  Reach-first e here h = h
  Reach-first e (next p q) h = Step-first e q (Reach-first e p h)
