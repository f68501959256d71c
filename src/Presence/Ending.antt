-- ===== src/Presence/Ending.antt =====
-- internal/presence/daemon.go, `Run`: how its goroutines end. The group of goroutines is that of
-- golang.org/x/sync/errgroup, an interface here. The channel `errs` has room for one error; a callback that
-- sends while it is full waits.
pub mod Reports
pub mod Blocks
pub mod First
use wifi_presence.Base.{
  ℕ, ◌≡◌, Bool, true, false, Option, none, some, List, [], ◌∷◌, ◌++◌, if◌then◌else◌, ◌==◌,
}
use wifi_presence.Base.Errors.{Error}

-- What the program calls of a group: a function of the group returns, the context from which that of
-- the group derives ends, and whether the group's context has ended; `result` is what `Wait` returns once
-- every function has returned.
pub record Group (G : Type 0) : Type 0 where
  pub empty : G
  pub done : Option Error → G → G
  pub end_context : G → G
  pub is_cancelled : G → Bool
  pub result : G → Option Error

-- `Wait` returns the first error that is not nil, and that error ends the context.
abbrev pub or_first : Option Error → Error → Option Error
or_first none e = some e
or_first (some first) e = some first

pub record IsErrgroup {G : Type 0} (g : Group G) : Type 0 where
  pub empty_result : g.result g.empty ≡ none
  pub done_none : (x : G) → g.result (g.done none x) ≡ g.result x
  pub done_some : (e : Error) (x : G) → g.result (g.done (some e) x) ≡ or_first (g.result x) e
  pub done_cancels : (e : Error) (x : G) → g.is_cancelled (g.done (some e) x) ≡ true
  pub cancel_result : (x : G) → g.result (g.end_context x) ≡ g.result x
  pub cancel_cancels : (x : G) → g.is_cancelled (g.end_context x) ≡ true

-- The goroutine that watches `errs`, and the others by number: that of `SubscribeConfig` and those of
-- `Attach`. Each is `none` while it runs, and then what it returned. `errs` is the channel, `blocked` the
-- errors of the callbacks that wait to send, and `sent` all errors of callbacks, the first one first.
pub record Running (G : Type 0) : Type 0 where
  pub group : G
  pub watcher : Option (Option Error)
  pub workers : ℕ → Option (Option Error)
  pub errs : Option Error
  pub blocked : List Error
  pub sent : List Error

abbrev pub ended : (ℕ → Option (Option Error)) → ℕ → Option Error → ℕ → Option (Option Error)
ended f i e j = if i == j then some e else f j

-- `errs <- err`
abbrev pub send_to : Option Error → Error → Option Error
send_to none e = some e
send_to (some x) e = some x

abbrev pub wait_to : Option Error → List Error → Error → List Error
wait_to none blocked e = blocked
wait_to (some x) blocked e = blocked ++ e ∷ []

-- The next error in the channel after one was received.
abbrev pub next_error : List Error → Option Error
next_error [] = none
next_error (e ∷ es) = some e

abbrev pub rest_errors : List Error → List Error
rest_errors [] = []
rest_errors (e ∷ es) = es

module _ {G : Type 0} (g : Group G) where
  unfoldable pub send : Error → Running G → Running G
  send e r = record r {
    errs = send_to r.errs e;
    blocked = wait_to r.errs r.blocked e;
    sent = r.sent ++ e ∷ [];
  }

  -- `case err := <-errs: return err`
  unfoldable pub take_error : Error → Running G → Running G
  take_error e r = record r {
    watcher = some (some e);
    group = g.done (some e) r.group;
    errs = next_error r.blocked;
    blocked = rest_errors r.blocked;
  }

  pub data Step (r : Running G) : Running G → Type 0 where
    context_ends : Step r (record r { group = g.end_context r.group })
    returns :
        (i : ℕ) (e : Option Error)
        → r.workers i ≡ none
        → Step r (record r { workers = ended r.workers i e; group = g.done e r.group })
    fails : (e : Error) → Step r (send e r)
    receives : (e : Error) → r.watcher ≡ none → r.errs ≡ some e → Step r (take_error e r)
    leaves :
        r.watcher ≡ none
        → g.is_cancelled r.group ≡ true
        → Step r (record r { watcher = some none; group = g.done none r.group })

  abbrev pub started : Running G
  started = record {
    group = g.empty;
    watcher = none;
    workers = λ i. none;
    errs = none;
    blocked = [];
    sent = [];
  }

  pub data Reach (r : Running G) : Running G → Type 0 where
    here : Reach r r
    next : {s t : Running G} → Reach r s → Step s t → Reach r t
