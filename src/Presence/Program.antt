-- ===== src/Presence/Program.antt =====
-- internal/presence/daemon.go, `Run`: its goroutines and the callbacks that timers start, interleaved in
-- any order. A configuration is handled in one step. `order` says in which order the map of changes is
-- visited, and is one function for the whole run, where Go may choose anew for the same map.
pub mod Keeps
pub mod Invariant
pub mod Configures
pub mod Diff
pub mod Safety
use wifi_presence.Base.{ℕ, zero, suc, ◌≡◌, Option, none, some, List, [], ◌∷◌, if◌then◌else◌, ◌==◌}
use wifi_presence.Base.Errors.{Result, ok, err}
use wifi_presence.Hass.Messages.{Configuration}
use wifi_presence.Hostapd.Event.{Event}
use wifi_presence.Hostapd.Status.{Status}
use wifi_presence.Presence.Config.{Changes, on_config_change}
use wifi_presence.Presence.Events.{timer_expires}
use wifi_presence.Presence.State.{Callback, Daemon, World, State, take_callback}
use wifi_presence.Presence.Threads.{Thread, calling, exited, handler, advance}

-- The daemon, the goroutine of each `hap` by its index, and the callback of each timer by its number.
-- A goroutine that waits for an event, or has not started, is `exited none`.
pub record Program : Type 0 where
  pub state : State
  pub haps : ℕ → Thread
  pub callbacks : ℕ → Thread

-- `d.haps[i]`
unfoldable pub nth : ℕ → List Status → Option Status
nth i [] = none
nth zero (hap ∷ haps) = some hap
nth (suc i) (hap ∷ haps) = nth i haps

unfoldable pub update : (ℕ → Thread) → ℕ → Thread → ℕ → Thread
update f i t j = if i == j then t else f j

pub data Step (order : Changes → Changes) (p : Program) : Program → Type 0 where
  -- `Attach` calls back with an event, once the call before it has returned.
  event :
      (i : ℕ) (hap : Status) (e : Event)
      → nth i p.state.daemon.haps ≡ some hap
      → p.haps i ≡ exited none
      → Step order p (record p { haps = update p.haps i (handler hap e) })
  -- The goroutine of a `hap` makes a section.
  handles :
      (i : ℕ)
      → Step order p (record p {
        state = (advance (p.haps i) p.state).0;
        haps = update p.haps i (advance (p.haps i) p.state).1;
      })
  -- A configuration arrives.
  configures :
      (cfg : Configuration)
      → Step order p (record p { state = (on_config_change order cfg p.state).0 })
  -- The runtime starts the function of a timer that is due.
  expires : (t : ℕ) → Step order p (record p { state = (timer_expires t p.state).0 })
  -- The function of a timer passes its critical section, and there is no callback to run.
  drops :
      (t : ℕ)
      → (take_callback t p.state).1 ≡ ok none
      → Step order p (record p { state = (take_callback t p.state).0 })
  -- It passes its critical section, and has a callback.
  takes :
      (t : ℕ) (cb : Callback)
      → (take_callback t p.state).1 ≡ ok (some cb)
      → Step order p (record p {
        state = (take_callback t p.state).0;
        callbacks = update p.callbacks t (calling cb);
      })
  -- A callback makes a section.
  calls :
      (t : ℕ)
      → Step order p (record p {
        state = (advance (p.callbacks t) p.state).0;
        callbacks = update p.callbacks t (advance (p.callbacks t) p.state).1;
      })

-- `Run` starts with a daemon of no stations, no timers and no goroutine in a handler.
abbrev pub start : Daemon → World → Program
start d w = record {
  state = record { daemon = d; world = w };
  haps = λ i. exited none;
  callbacks = λ t. exited none;
}

pub data Reach (order : Changes → Changes) (p : Program) : Program → Type 0 where
  here : Reach order p p
  next : {q r : Program} → Reach order p q → Step order q r → Reach order p r
