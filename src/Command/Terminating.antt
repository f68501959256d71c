-- ===== src/Command/Terminating.antt =====
-- From the end of an `Attach` to the exit code, through the groups of `Run` and of `run`.
use wifi_presence.Base.{ℕ, ◌≡◌, ◌∙◌, refl, Option, none, some}
use wifi_presence.Base.Errors.{Error, terminating}
use wifi_presence.Command.{exit_code}
use wifi_presence.Command.Exit.{Wraps, exit_code_lem}
use wifi_presence.Presence.Ending.{Group, IsErrgroup, Running, Reach, ended}
use wifi_presence.Presence.Ending.First.{done-first, done-empty, Reach-first}

module _ {G : Type 0} (g : Group G) (law : IsErrgroup g) where
  -- Where a goroutine of `Run` returns an error that is, or wraps, that hostapd terminates, before any
  -- other error came, then whatever the other goroutines, the callbacks and the context do after that,
  -- and whatever `OnConnectionLost` returns after `Run`, the program exits with 125.
  pub terminating_exits :
      (r : Running G) (i : ℕ) (e : Error) (s : Running G) (lost : Option Error)
      → g.result r.group ≡ none
      → Wraps terminating e
      → Reach g
          (record r { workers = ended r.workers i (some e); group = g.done (some e) r.group })
          s
      → exit_code (g.result (g.done lost (g.done (g.result s.group) g.empty))) ≡ 125
  terminating_exits r i e s lost n w p =
      let first : g.result (g.done (some e) r.group) ≡ some e =
        law.done_some e r.group ∙ rw n refl in
      let kept = Reach-first g law e p first in
      let outer : g.result (g.done lost (g.done (g.result s.group) g.empty)) ≡ some e =
        rw kept (done-first g law lost (g.done (some e) g.empty) e (done-empty g law e)) in
      rw outer ((exit_code_lem (some e)).0.1 (e, refl, w))
