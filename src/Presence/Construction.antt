-- ===== src/Presence/Construction.antt =====
-- internal/presence/daemon.go, the options and `NewDaemon`. The logger is left out. `C` is a client of
-- hostapd, and `W` is what a call of its `Status` changes.
pub mod Built
use wifi_presence.Base.{ℕ, Bool, true, false, Option, none, some, List, [], ◌∷◌, ◌++◌, Bytes}
use wifi_presence.Base.Errors.{Error, Result, ok, err, hass_required, hostapd_required}
use wifi_presence.Hass.Mqtt.{Mqtt}
use wifi_presence.Hostapd.Status.{Status}
use wifi_presence.Base.Int.{ℤ, pos_part}
use wifi_presence.Presence.Debounce.{Debouncer, new_debouncer}
use wifi_presence.Presence.State.{Callback, Daemon}

-- `type Opt func(*Daemon)`: the options that the package offers. A time of debouncing is an `int64`; a
-- timer of a negative one is due at once, as one of 0 is.
pub data Opt (C : Type 0) : Type 0 where
  with_ap_name : Bytes → Opt C
  with_hass_opt : Mqtt → Opt C
  with_hostapd : C → Opt C
  with_debounce : ℤ → Opt C
  with_hass_autodiscovery : Bool → Opt C

-- The daemon while the options are applied: nil pointers are `none`.
pub record Draft (C : Type 0) : Type 0 where
  pub ap_name : Bytes
  pub hass : Option Mqtt
  pub clients : List C
  pub db : Option (Debouncer Callback)
  pub hass_auto_disc : Bool

-- 5 * time.Second
abbrev pub default_debounce : ℕ
default_debounce = 5000000000

unfoldable pub or_debouncer : Option (Debouncer Callback) → Debouncer Callback
or_debouncer none = new_debouncer default_debounce
or_debouncer (some db) = db

module _ {C : Type 0} where
  abbrev pub empty_draft : Draft C
  empty_draft = record {
    ap_name = [];
    hass = none;
    clients = [];
    db = none;
    hass_auto_disc = false;
  }

  unfoldable pub apply_opt : Opt C → Draft C → Draft C
  apply_opt (with_ap_name name) d = record d { ap_name = name }
  apply_opt (with_hass_opt hm) d = record d { hass = some hm }
  apply_opt (with_hostapd ha) d = record d { clients = d.clients ++ ha ∷ [] }
  apply_opt (with_debounce db) d = record d { db = some (new_debouncer (pos_part db)) }
  apply_opt (with_hass_autodiscovery ad) d = record d { hass_auto_disc = ad }

  unfoldable pub apply_opts : List (Opt C) → Draft C → Draft C
  apply_opts [] d = d
  apply_opts (opt ∷ opts) d = apply_opts opts (apply_opt opt d)

module _ {C W : Type 0} (status : C → W → W × Result Status) where
  -- The loop over the clients, which asks each for its status.
  unfoldable pub statuses : List C → W → W × Result (List Status)
  statuses [] w = (w, ok [])
  statuses (c ∷ clients) w =
      let (w1, r) = status c w in
      let (w2, rest) = statuses clients w1 in
      elim r [
        | err e ↦ (w1, err e)
        | ok s ↦ (w2, elim rest [ err e ↦ err e | ok ss ↦ ok (s ∷ ss) ])
      ]

  abbrev pub with_statuses : Draft C → Mqtt → W × Result (List Status) → W × Result Daemon
  with_statuses d hass (w, err e) = (w, err e)
  with_statuses d hass (w, ok haps) = (
    w,
    ok (record {
      ap_name = d.ap_name;
      hass = hass;
      haps = haps;
      db = or_debouncer d.db;
      hass_auto_disc = d.hass_auto_disc;
      stations = [];
    }),
  )

  -- `if len(d.haps) == 0`, and what follows.
  abbrev pub with_clients : Draft C → Mqtt → List C → W → W × Result Daemon
  with_clients d hass [] w = (w, err hostapd_required)
  with_clients d hass (c ∷ clients) w = with_statuses d hass (statuses (c ∷ clients) w)

  -- `if d.hass == nil`, and what follows.
  abbrev pub with_hass : Draft C → Option Mqtt → W → W × Result Daemon
  with_hass d none w = (w, err hass_required)
  with_hass d (some hass) w = with_clients d hass d.clients w

  -- `NewDaemon`.
  unfoldable pub new_daemon : List (Opt C) → W → W × Result Daemon
  new_daemon opts w = let d = apply_opts opts empty_draft in with_hass d d.hass w
