-- ===== src/Presence/Program/Configures.antt =====
-- The handler of configurations keeps the invariant.
use wifi_presence.Base.{
  ◌≡◌, inl, inr, refl, ap, Bool, true, false, Option, none, some, List, [], ◌∷◌, Bytes, All,
  Bool-cases,
}
use wifi_presence.Base.Errors.{Result, ok, err, Result-cases, as_unknown_cmd}
use wifi_presence.Base.Maps.{lookup}
use wifi_presence.Hass.Mqtt.{
  Mqtt, register_device_tracker, unregister_device_tracker, device_tracker,
}
use wifi_presence.Hostapd.Status.{Status}
use wifi_presence.Presence.Mac.{Mac, mac_key, to_string}
use wifi_presence.Presence.Connected.{
  ConnectedStation, Connected, add_stations, connected_from, connected_stations, connected_or_none,
}
use wifi_presence.Presence.State.{Station, M, lift, when, with_broker}
use wifi_presence.Presence.Config.{
  StaChange, sta_no_change, sta_removed, sta_added, sta_updated, Changes, or_zero, register,
  unregister, added_absent, added_connected, process_change, process_changes, apply_changes,
}
use wifi_presence.Presence.Config.Reapply.{Reorders}
use wifi_presence.Presence.Program.Keeps.{
  Whatever, Keeps, IsFound, Keeps->>=, Keeps-return, Keeps-now, Keeps-get_daemon, Keeps-get_station,
  Keeps-put_station, Keeps-db_cancel, Keeps-list_stations, Keeps-with_broker-publish,
  Keeps-with_broker-fails,
}
use wifi_presence.Presence.Program.Invariant.{
  Keeps-station_home, Keeps-station_not_home, Keeps-station_attributes,
}

or_zero-keyed :
    (K : Mac → Type 0) (mac : Mac) (o : Option Station) (c : StaChange)
    → IsFound K mac o
    → (c ≡ sta_added → K mac)
    → c ≡ sta_added
    → (or_zero o).mac ≡ mac
unfolding or_zero
or_zero-keyed K mac none c f k e = absurd (f (k e))
or_zero-keyed K mac (some sta) c f k e = f

-- The stations that are added have the property.
abbrev pub AllAdded : (Mac → Type 0) → Changes → Type 0
AllAdded K changes = All (λ (e : Mac × StaChange). e.1 ≡ sta_added → K e.0) changes

module _ {m : Mqtt} {K : Mac → Type 0} where
  Keeps-lift : {A : Type 0} (r : Result A) → Keeps m K Whatever (lift r)
  Keeps-lift (ok a) = record { holds = λ s i. (i, tt) }
  Keeps-lift (err e) = record { holds = λ s i. (i, tt) }

  Keeps-when : (b : Bool) (c : M (Unit {0})) → Keeps m K Whatever c → Keeps m K Whatever (when b c)
  Keeps-when true c h = h
  Keeps-when false c h = Keeps-return tt tt

  Keeps-register_device_tracker :
      (h : Mqtt) (name mac : Bytes)
      → h ≡ m
      → Keeps m K Whatever (with_broker (register_device_tracker h name mac))
  unfolding register_device_tracker device_tracker
  Keeps-register_device_tracker h [] mac e = Keeps-with_broker-fails _ _ (λ b. refl)
  Keeps-register_device_tracker h (c ∷ name) [] e = Keeps-with_broker-fails _ _ (λ b. refl)
  Keeps-register_device_tracker h (c ∷ name) (d ∷ mac) e =
      rw e (Keeps-with_broker-publish _ _ (d ∷ mac, refl, refl, refl))

  Keeps-unregister_device_tracker :
      (h : Mqtt) (mac : Bytes)
      → h ≡ m
      → Keeps m K Whatever (with_broker (unregister_device_tracker h mac))
  unfolding unregister_device_tracker
  Keeps-unregister_device_tracker h [] e = Keeps-with_broker-fails _ _ (λ b. refl)
  Keeps-unregister_device_tracker h (d ∷ mac) e =
      rw e (Keeps-with_broker-publish _ _ (d ∷ mac, inr (refl, refl)))

  Keeps-register : (sta : Station) → Keeps m K Whatever (register sta)
  unfolding register
  Keeps-register sta =
      Keeps->>= Keeps-get_daemon
        (λ d e. Keeps-when d.hass_auto_disc _ (Keeps-register_device_tracker d.hass _ _ e))

  Keeps-unregister : (mac : Mac) → Keeps m K Whatever (unregister mac)
  unfolding unregister
  Keeps-unregister mac =
      Keeps->>= Keeps-get_daemon
        (λ d e. Keeps-when d.hass_auto_disc _ (Keeps-unregister_device_tracker d.hass _ e))

  Keeps-added_absent :
      (mac : Mac) (sta : Station) → sta.mac ≡ mac → Keeps m K Whatever (added_absent mac sta)
  unfolding added_absent
  Keeps-added_absent mac sta h =
      Keeps->>= (Keeps-put_station mac _ h)
        (λ u x. Keeps->>= Keeps-get_daemon (λ d e. Keeps-station_not_home d.hass _ e))

  Keeps-added_connected :
      (mac : Mac) (sta : Station) (cs : ConnectedStation)
      → sta.mac ≡ mac
      → Keeps m K Whatever (added_connected mac sta cs)
  unfolding added_connected
  Keeps-added_connected mac sta cs h = Keeps->>= Keeps-now (λ t u.
      Keeps->>= (Keeps-put_station mac _ h) (λ v x. Keeps->>= (Keeps-db_cancel mac) (λ b y.
        Keeps->>= Keeps-get_daemon (λ d e. Keeps->>= Keeps-now (λ t' z.
          Keeps->>= (Keeps-station_home d.hass _ e)
            (λ w r. Keeps-station_attributes d.hass _ _ e (ap to_string h)))))))

  Keeps-added :
      (mac : Mac) (sta : Station) (o : Option ConnectedStation)
      → sta.mac ≡ mac
      → Keeps m K Whatever
          (elim o [ none ↦ added_absent mac sta | some cs ↦ added_connected mac sta cs ])
  Keeps-added mac sta none h = Keeps-added_absent mac sta h
  Keeps-added mac sta (some cs) h = Keeps-added_connected mac sta cs h

  Keeps-process_change :
      (connected : Connected) (mac : Mac) (c : StaChange) (sta : Station)
      → (c ≡ sta_added → sta.mac ≡ mac)
      → Keeps m K Whatever (process_change connected mac c sta)
  unfolding process_change
  Keeps-process_change connected mac sta_no_change sta h = Keeps-return tt tt
  Keeps-process_change connected mac sta_updated sta h = Keeps-register sta
  Keeps-process_change connected mac sta_removed sta h =
      Keeps->>= (Keeps-db_cancel mac) (λ b x. Keeps-unregister mac)
  Keeps-process_change connected mac sta_added sta h =
      Keeps->>= (Keeps-register sta) (λ u x. Keeps-added mac sta (lookup mac connected) (h refl))

  Keeps-process_changes :
      (connected : Connected) (changes : Changes)
      → AllAdded K changes
      → Keeps m K Whatever (process_changes connected changes)
  unfolding process_changes
  Keeps-process_changes connected [] h = Keeps-return tt tt
  Keeps-process_changes connected ((mac, c) ∷ changes) (h, hs) =
      Keeps->>= (Keeps-get_station mac) (λ o f.
        Keeps->>= (Keeps-process_change connected mac c (or_zero o) (or_zero-keyed K mac o c f h))
          (λ u x. Keeps-process_changes connected changes hs))

  Keeps-connected_from :
      (haps : List Status) (cs : Connected) → Keeps m K Whatever (connected_from haps cs)
  unfolding connected_from
  Keeps-connected_from [] cs = Keeps-return cs tt
  Keeps-connected_from (hap ∷ haps) cs = Keeps->>= Keeps-list_stations (λ stations u.
      Keeps->>= (Keeps-lift (add_stations hap stations cs))
        (λ cs' x. Keeps-connected_from haps cs'))

  Keeps-connected_stations : Keeps m K Whatever connected_stations
  unfolding connected_stations
  Keeps-connected_stations = Keeps->>= Keeps-get_daemon (λ d e. Keeps-connected_from d.haps [])

  Keeps-connected_or_none : Keeps m K Whatever connected_or_none
  unfolding connected_or_none
  Keeps-connected_or_none = record {
    holds = λ s i.
        let (i', u) = Keeps-connected_stations.holds s i in
        elim (Result-cases (connected_stations s).1) [
          | inl (cs, e) ↦ rw (connected_or_none, e) (i', tt)
          | inr (x, e) ↦ elim (Bool-cases (as_unknown_cmd x)) [
            | inl y ↦ rw (connected_or_none, e, y) (i', tt)
            | inr y ↦ rw (connected_or_none, e, y) (i', tt)
          ]
        ];
  }

  pub Keeps-apply_changes :
      (order : Changes → Changes) (changes : Changes) (u : Bool)
      → Reorders order
      → AllAdded K changes
      → Keeps m K Whatever (apply_changes order changes u)
  unfolding apply_changes
  Keeps-apply_changes order [] u r h = Keeps-return tt tt
  Keeps-apply_changes order (c ∷ changes) true r h =
      Keeps->>= Keeps-connected_or_none
        (λ cs x. Keeps-process_changes cs (order (c ∷ changes)) (r _ (c ∷ changes) h))
  Keeps-apply_changes order (c ∷ changes) false r h =
      Keeps->>= (Keeps-return {Q = Whatever} [] tt)
        (λ cs x. Keeps-process_changes cs (order (c ∷ changes)) (r _ (c ∷ changes) h))
