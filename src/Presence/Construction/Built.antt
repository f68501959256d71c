-- ===== src/Presence/Construction/Built.antt =====
-- What `NewDaemon` returns, and the program that starts from it.
use mathlib.Core.Path.{subst}
use wifi_presence.Base.{◌≡◌, ◌≢◌, refl, Option, none, some, List, [], ◌∷◌, All, inl, inr}
use wifi_presence.Base.Errors.{Result, ok, err, Result-cases}
use wifi_presence.Hass.Mqtt.{Mqtt}
use wifi_presence.Hostapd.Status.{Status}
use wifi_presence.Presence.Debounce.{Debouncer}
use wifi_presence.Base.Int.{pos_part}
use wifi_presence.Presence.Debounce.Invariant.{Inv, new_debouncer-Inv}
use wifi_presence.Presence.State.{Callback, Daemon, World}
use wifi_presence.Presence.Config.{Changes}
use wifi_presence.Presence.Config.Reapply.{Reorders}
use wifi_presence.Presence.Program.{Program, Reach, start}
use wifi_presence.Presence.Program.Keeps.{IsOwn}
use wifi_presence.Presence.Program.Safety.{published-IsOwn}
use wifi_presence.Presence.Construction.{
  Opt, with_ap_name, with_hass_opt, with_hostapd, with_debounce, with_hass_autodiscovery, Draft,
  or_debouncer, empty_draft, apply_opt, apply_opts, statuses, with_statuses, with_clients,
  with_hass, new_daemon,
}

-- The debouncer of a draft is fresh.
abbrev IsFresh : Option (Debouncer Callback) → Type 0
IsFresh none = Unit
IsFresh (some db) = Inv db

or_debouncer-Inv : (o : Option (Debouncer Callback)) → IsFresh o → Inv (or_debouncer o)
unfolding or_debouncer
or_debouncer-Inv none h = new_debouncer-Inv _
or_debouncer-Inv (some db) h = h

-- What `Run` finds in the daemon.
pub record IsBuilt (d : Daemon) : Type 0 where
  pub untracked : d.stations ≡ []
  pub debounced : Inv d.db
  pub connected : d.haps ≢ []

module _ {C : Type 0} where
  apply_opt-IsFresh : (opt : Opt C) (d : Draft C) → IsFresh d.db → IsFresh (apply_opt opt d).db
  unfolding apply_opt
  apply_opt-IsFresh (with_ap_name name) d h = h
  apply_opt-IsFresh (with_hass_opt hm) d h = h
  apply_opt-IsFresh (with_hostapd ha) d h = h
  apply_opt-IsFresh (with_debounce t) d h = new_debouncer-Inv (pos_part t)
  apply_opt-IsFresh (with_hass_autodiscovery ad) d h = h

  apply_opts-IsFresh :
      (opts : List (Opt C)) (d : Draft C) → IsFresh d.db → IsFresh (apply_opts opts d).db
  unfolding apply_opts
  apply_opts-IsFresh [] d h = h
  apply_opts-IsFresh (opt ∷ opts) d h = apply_opts-IsFresh opts _ (apply_opt-IsFresh opt d h)

module _ {C W : Type 0} (status : C → W → W × Result Status) where
  abbrev OnBuilt : (Daemon → Type 0) → Result Daemon → Type 0
  OnBuilt P (ok d) = P d
  OnBuilt P (err e) = Unit

  abbrev IsSome : Result (List Status) → Type 0
  IsSome (ok haps) = haps ≢ []
  IsSome (err e) = Unit

  statuses-IsSome : (c : C) (clients : List C) (w : W) → IsSome (statuses status (c ∷ clients) w).1
  unfolding statuses
  statuses-IsSome c clients w =
      let (w1, r) = status c w in
      elim (Result-cases (status c w).1) [
        | inr (e, p) ↦ rw (statuses, p) tt
        | inl (s, p) ↦ elim (Result-cases (statuses status clients (status c w).0).1) [
          | inr (e, q) ↦ rw (statuses, p, q) tt
          | inl (ss, q) ↦ rw (statuses, p, q) (λ e. cc)
        ]
      ]

  with_statuses-IsBuilt :
      (d : Draft C) (hass : Mqtt) (r : W × Result (List Status))
      → IsFresh d.db
      → IsSome r.1
      → OnBuilt IsBuilt (with_statuses status d hass r).1
  with_statuses-IsBuilt d hass (w, err e) f h = tt
  with_statuses-IsBuilt d hass (w, ok haps) f h = record {
    untracked = refl;
    debounced = or_debouncer-Inv d.db f;
    connected = h;
  }

  with_clients-IsBuilt :
      (d : Draft C) (hass : Mqtt) (clients : List C) (w : W)
      → IsFresh d.db
      → OnBuilt IsBuilt (with_clients status d hass clients w).1
  with_clients-IsBuilt d hass [] w f = tt
  with_clients-IsBuilt d hass (c ∷ clients) w f =
      with_statuses-IsBuilt d hass (statuses status (c ∷ clients) w) f (statuses-IsSome c clients w)

  with_hass-IsBuilt :
      (d : Draft C) (o : Option Mqtt) (w : W)
      → IsFresh d.db
      → OnBuilt IsBuilt (with_hass status d o w).1
  with_hass-IsBuilt d none w f = tt
  with_hass-IsBuilt d (some hass) w f = with_clients-IsBuilt d hass d.clients w f

  -- A daemon that `NewDaemon` returns tracks no station, has a debouncer that satisfies its invariant,
  -- and has a client of hostapd.
  pub new_daemon-IsBuilt :
      (opts : List (Opt C)) (w : W) {w' : W} {d : Daemon}
      → new_daemon status opts w ≡ (w', ok d)
      → IsBuilt d
  unfolding new_daemon
  new_daemon-IsBuilt opts w {d = d} e =
      let draft = apply_opts opts empty_draft in
      let built = with_hass-IsBuilt draft draft.hass w (apply_opts-IsFresh opts empty_draft tt) in
      subst (λ (r : W × Result Daemon). OnBuilt IsBuilt r.1) e built

  -- Where the program starts with a daemon that `NewDaemon` returned, whatever its options, and the
  -- record of published messages starts empty, then after any interleaving of events, configurations,
  -- timers and sections every message that was published says what belongs to its topic: a state
  -- topic carries one of the two state payloads, the attributes of a MAC stand under that MAC, and a
  -- discovery topic carries the empty message or a tracker that names the state and attributes topics
  -- of the same MAC.
  pub new_daemon-IsOwn :
      {order : Changes → Changes} (opts : List (Opt C)) (w : W) (world : World) {w' : W}
      {d : Daemon} {p : Program}
      → Reorders order
      → new_daemon status opts w ≡ (w', ok d)
      → world.broker.published ≡ []
      → Reach order (start d world) p
      → All (IsOwn d.hass) p.state.world.broker.published
  new_daemon-IsOwn opts w world {d = d} o e b r =
      let built = new_daemon-IsBuilt opts w e in
      published-IsOwn d world o built.untracked built.debounced b r
