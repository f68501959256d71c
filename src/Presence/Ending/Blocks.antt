-- ===== src/Presence/Ending/Blocks.antt =====
-- The callbacks that fail once nothing receives from `errs`.
use mathlib.Core.List.{append_assoc, append-nil}
use wifi_presence.Base.{◌≡◌, ◌∙◌, sym, ap, arith, Option, some, List, [], ◌∷◌, ◌++◌}
use wifi_presence.Base.Errors.{Error}
use wifi_presence.Presence.Ending.{
  Group, Running, send_to, wait_to, send, Step, context_ends, returns, fails, receives, leaves,
  Reach, here, next,
}

module _ {G : Type 0} (g : Group G) where
  -- The watcher has returned, and an error fills the channel.
  pub record Full (o : Option Error) (x : Error) (waiting : List Error) (r : Running G)
      : Type 0 where
    pub watcher : r.watcher ≡ some o
    pub errs : r.errs ≡ some x
    pub more : List Error
    pub blocked : r.blocked ≡ waiting ++ more

  Step-Full :
      {o : Option Error} {x : Error} {waiting : List Error} {r s : Running G}
      → Full o x waiting r
      → Step g r s
      → Full o x waiting s
  unfolding send
  Step-Full f context_ends = record {
    watcher = f.watcher;
    errs = f.errs;
    more = f.more;
    blocked = f.blocked;
  }
  Step-Full f (returns i e h) = record {
    watcher = f.watcher;
    errs = f.errs;
    more = f.more;
    blocked = f.blocked;
  }
  Step-Full {waiting = waiting} {r = r} f (fails e) = record {
    watcher = f.watcher;
    errs = ap (λ c. send_to c e) f.errs;
    more = f.more ++ e ∷ [];
    blocked =
        ap (λ c. wait_to c r.blocked e) f.errs
        ∙ ap (λ l. l ++ e ∷ []) f.blocked
        ∙ append_assoc waiting f.more (e ∷ []);
  }
  Step-Full f (receives e h h') = absurd (ground (arith, h, f.watcher))
  Step-Full f (leaves h h') = absurd (ground (arith, h, f.watcher))

  -- Once the watcher has returned and an error fills the channel, whatever happens after that, the channel
  -- stays as it is and every callback that waits to send its error goes on waiting, those that fail
  -- later behind them.
  pub blocked_forever :
      {o : Option Error} {x : Error} {waiting : List Error} {r s : Running G}
      → r.watcher ≡ some o
      → r.errs ≡ some x
      → r.blocked ≡ waiting
      → Reach g r s
      → Full o x waiting s
  blocked_forever {waiting = waiting} h h' q here = record {
    watcher = h;
    errs = h';
    more = [];
    blocked = q ∙ sym (append-nil waiting);
  }
  blocked_forever h h' q (next p step) = Step-Full (blocked_forever h h' q p) step
