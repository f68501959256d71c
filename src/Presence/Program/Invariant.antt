-- ===== src/Presence/Program/Invariant.antt =====
-- The sections of goroutines and the handler of configurations keep the invariant.
use wifi_presence.Base.{
  ◌≡◌, inl, inr, refl, ap, Bool, true, false, Option, none, some, Bytes, if◌then◌else◌, Bool-cases,
}
use wifi_presence.Base.Errors.{Result, ok, err}
use wifi_presence.Base.Time.{is_zero}
use wifi_presence.Hass.Topics.{device_state}
use wifi_presence.Hass.Messages.{Attrs}
use wifi_presence.Hass.Mqtt.{Mqtt, station_home, station_not_home, station_attributes}
use wifi_presence.Hostapd.Status.{Status}
use wifi_presence.Presence.Mac.{Mac, mac_key, to_string}
use wifi_presence.Presence.Events.{disconnected_for, is_latent, disconnected_attrs}
use wifi_presence.Presence.State.{Station, Callback, State, with_broker}
use wifi_presence.Presence.Threads.{
  Thread, connecting, cancelling, homing, informing, disconnecting, enqueueing, calling, looking,
  reporting, exited, connect_section, disconnect_section, found_section, section, settle, advance,
}
use wifi_presence.Presence.Program.Keeps.{
  IsSound, OnOk, Whatever, Keeps, IsFound, Keeps->>=, Keeps-return, Keeps-now, Keeps-get_daemon,
  Keeps-get_station, Keeps-put_station, Keeps-db_cancel, Keeps-db_enqueue,
  Keeps-with_broker-publish,
}

-- A goroutine writes and publishes what belongs to its address.
abbrev pub IsSoundThread : Thread → Type 0
IsSoundThread (cancelling hap mac sta update) = sta.mac ≡ mac
IsSoundThread (homing hap mac sta) = sta.mac ≡ mac
IsSoundThread (informing hap mac sta) = sta.mac ≡ mac
IsSoundThread (reporting cb sta) = sta.mac ≡ cb.mac
IsSoundThread _ = Unit

after_cancel :
    (hap : Status) (mac : Mac) (sta : Station) (update : Bool)
    → sta.mac ≡ mac
    → IsSoundThread (if update then homing hap mac sta else exited none)
after_cancel hap mac sta true h = h
after_cancel hap mac sta false h = tt

module _ {m : Mqtt} {K : Mac → Type 0} where
  pub Keeps-station_home :
      (h : Mqtt) (mac : Bytes) → h ≡ m → Keeps m K Whatever (with_broker (station_home h mac))
  unfolding station_home
  Keeps-station_home h mac e =
      Keeps-with_broker-publish _ _
        (mac, inl (ap (λ (x : Mqtt). device_state x.topics mac) e, inl refl))

  pub Keeps-station_not_home :
      (h : Mqtt) (mac : Bytes) → h ≡ m → Keeps m K Whatever (with_broker (station_not_home h mac))
  unfolding station_not_home
  Keeps-station_not_home h mac e =
      Keeps-with_broker-publish _ _
        (mac, inl (ap (λ (x : Mqtt). device_state x.topics mac) e, inr refl))

  pub Keeps-station_attributes :
      (h : Mqtt) (mac : Bytes) (attrs : Attrs)
      → h ≡ m
      → attrs.mac ≡ mac
      → Keeps m K Whatever (with_broker (station_attributes h mac attrs))
  unfolding station_attributes
  Keeps-station_attributes h mac attrs e same = Keeps-with_broker-publish _ _ (rw (e, same) refl)

  pub Keeps-disconnected_for : (sta : Station) → Keeps m K Whatever (disconnected_for sta)
  unfolding disconnected_for
  Keeps-disconnected_for sta = elim (Bool-cases (is_zero sta.disconnected_at)) [
    | inl z ↦ rw z (Keeps-return _ tt)
    | inr z ↦ rw z (Keeps->>= Keeps-now (λ t u. Keeps-return _ tt))
  ]

  Keeps-connect_section :
      (hap : Status) (mac : Mac) (o : Option Station)
      → IsFound K mac o
      → Keeps m K IsSoundThread (connect_section hap mac o)
  unfolding connect_section
  Keeps-connect_section hap mac none h = Keeps-return _ tt
  Keeps-connect_section hap mac (some sta) h =
      Keeps->>= Keeps-now (λ t u. Keeps->>= (Keeps-put_station mac _ h) (λ v x. Keeps-return _ h))

  Keeps-disconnect_section :
      (hap : Status) (mac : Mac) (o : Option Station)
      → IsFound K mac o
      → Keeps m K IsSoundThread (disconnect_section hap mac o)
  unfolding disconnect_section
  Keeps-disconnect_section hap mac none h = Keeps-return _ tt
  Keeps-disconnect_section hap mac (some sta) h = elim (Bool-cases (is_latent hap sta)) [
    | inl l ↦ rw l (Keeps-return _ tt)
    | inr l ↦ rw l (
        Keeps->>= Keeps-now
          (λ t u. Keeps->>= (Keeps-put_station mac _ h) (λ v x. Keeps-return _ tt)))
  ]

  Keeps-found_section :
      (cb : Callback) (o : Option Station)
      → IsFound K cb.mac o
      → Keeps m K IsSoundThread (found_section cb o)
  unfolding found_section
  Keeps-found_section cb none h = Keeps-return _ tt
  Keeps-found_section cb (some sta) h = Keeps-return _ h

  -- Every section keeps the invariant, and leaves a goroutine that is sound.
  pub Keeps-section : (t : Thread) → IsSoundThread t → Keeps m K IsSoundThread (section t)
  unfolding section disconnected_attrs
  Keeps-section (connecting hap mac) h =
      Keeps->>= (Keeps-get_station mac) (Keeps-connect_section hap mac)
  Keeps-section (cancelling hap mac sta update) h =
      Keeps->>= (Keeps-db_cancel mac) (λ b u. Keeps-return _ (after_cancel hap mac sta update h))
  Keeps-section (homing hap mac sta) h =
      Keeps->>= Keeps-get_daemon
        (λ d e. Keeps->>= (Keeps-station_home d.hass (to_string mac) e) (λ u x. Keeps-return _ h))
  Keeps-section (informing hap mac sta) h = Keeps->>= Keeps-get_daemon (λ d e.
      Keeps->>= (Keeps-disconnected_for sta) (λ gone u.
        Keeps->>= (Keeps-station_attributes d.hass (to_string mac) _ e (ap to_string h))
          (λ v x. Keeps-return _ tt)))
  Keeps-section (disconnecting hap mac) h =
      Keeps->>= (Keeps-get_station mac) (Keeps-disconnect_section hap mac)
  Keeps-section (enqueueing hap mac) h =
      Keeps->>= (Keeps-db_enqueue mac _) (λ b u. Keeps-return _ tt)
  Keeps-section (calling cb) h = Keeps->>= Keeps-get_daemon (λ d e.
      Keeps->>= (Keeps-station_not_home d.hass (to_string cb.mac) e) (λ u x. Keeps-return _ tt))
  Keeps-section (looking cb) h = Keeps->>= (Keeps-get_station cb.mac) (Keeps-found_section cb)
  Keeps-section (reporting cb sta) h = Keeps->>= Keeps-get_daemon (λ d e.
      Keeps->>= Keeps-now (λ t u.
        Keeps->>= (Keeps-station_attributes d.hass (to_string cb.mac) _ e (ap to_string h))
          (λ v x. Keeps-return _ tt)))
  Keeps-section (exited e) h = Keeps-return _ tt

  settle-IsSound :
      (r : State × Result Thread)
      → IsSound m K r.0
      → OnOk IsSoundThread r.1
      → IsSound m K (settle r).0 × IsSoundThread (settle r).1
  settle-IsSound (s, ok t) i h = (i, h)
  settle-IsSound (s, err e) i h = (i, tt)

  pub advance-IsSound :
      (t : Thread) (s : State)
      → IsSoundThread t
      → IsSound m K s
      → IsSound m K (advance t s).0 × IsSoundThread (advance t s).1
  unfolding advance
  advance-IsSound t s h i =
      let (i', h') = (Keeps-section t h).holds s i in settle-IsSound (section t s) i' h'
