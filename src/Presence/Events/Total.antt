-- ===== src/Presence/Events/Total.antt =====
-- Events that internal/hostapd hands on, and sequences of events.
use wifi_presence.Base.{◌≡◌, ◌≢◌, refl, ap, some, Bytes, Bool-cases, Option-cases, inl, inr}
use wifi_presence.Base.Errors.{Result, ok}
use wifi_presence.Base.Maps.{lookup, lookup-insert_self}
use wifi_presence.Hostapd.Status.{Status}
use wifi_presence.Hostapd.Event.{
  Event, station_connect, station_disconnect, terminating, unrecognized, parse_event,
}
use wifi_presence.Hostapd.Event.Parse.{parse_event-IsSound}
use wifi_presence.Hostapd.Mac.Decode.{is_mac-decode}
use wifi_presence.Presence.Mac.{Mac, mac_key}
use wifi_presence.Presence.Delivery.{AllDelivered}
use wifi_presence.Presence.State.{◌>>=◌, Station, State}
use wifi_presence.Presence.Events.{on_connect, is_latent, on_disconnect, on_hostapd_event}
use wifi_presence.Presence.Events.Branches.{
  connected_at_hap, on_connect_tracked, untracked_ignored, on_disconnect_tracked, latent_ignored,
}

on_connect_ok :
    (hap : Status) (mac : Mac) (s : State) → AllDelivered s → (on_connect hap mac s).1 ≡ ok tt
on_connect_ok hap mac s h = elim (Option-cases (lookup mac s.daemon.stations)) [
  | inl e ↦ ap (λ (x : State × Result (Unit {0})). x.1) (untracked_ignored hap mac s e).0
  | inr (sta, e) ↦ (on_connect_tracked hap mac sta s h e).0
]

on_disconnect_ok : (hap : Status) (mac : Mac) (s : State) → (on_disconnect hap mac s).1 ≡ ok tt
on_disconnect_ok hap mac s = elim (Option-cases (lookup mac s.daemon.stations)) [
  | inl e ↦ ap (λ (x : State × Result (Unit {0})). x.1) (untracked_ignored hap mac s e).1
  | inr (sta, e) ↦ elim (Bool-cases (is_latent hap sta)) [
    | inl latent ↦ unfold on_disconnect ◌>>=◌ in rw (e, latent)
    | inr other ↦
        ap (λ (x : State × Result (Unit {0})). x.1) (on_disconnect_tracked hap mac sta s e other)
  ]
]

event_ok :
    (hap : Status) (e : Event) (msg : Bytes) (s : State)
    → AllDelivered s
    → parse_event msg ≡ ok e
    → (on_hostapd_event hap e s).1 ≡ ok tt
unfolding on_hostapd_event ◌>>=◌
event_ok hap (station_connect r t) msg s h p =
    let (m, d, _) = is_mac-decode t (parse_event-IsSound msg p).1 in rw d (on_connect_ok hap m s h)
event_ok hap (station_disconnect r t) msg s h p =
    let (m, d, _) = is_mac-decode t (parse_event-IsSound msg p).1 in rw d (on_disconnect_ok hap m s)
event_ok hap (terminating r) msg s h p = refl
event_ok hap (unrecognized r) msg s h p = refl

-- The handler of events returns no error on an event that `parseEvent` made, where the broker
-- completes every message with no error: no message of hostapd stops the daemon by the address it
-- holds.
pub on_hostapd_event_total :
    (hap : Status) (msg : Bytes) {e : Event} (s : State)
    → AllDelivered s
    → parse_event msg ≡ ok e
    → (on_hostapd_event hap e s).1 ≡ ok tt
on_hostapd_event_total hap msg {e} s h p = event_ok hap e msg s h p

-- Roaming: after a tracked station connected to the access point `new`, with every message
-- completed by the broker with no error, a late disconnect event of an access point `old` with
-- another BSSID changes nothing.
pub roaming :
    (new old : Status) (mac : Mac) (sta : Station) (s : State)
    → AllDelivered s
    → lookup mac s.daemon.stations ≡ some sta
    → new.bssid ≢ old.bssid
    → let s' = (on_connect new mac s).0 in on_disconnect old mac s' ≡ (s', ok tt)
roaming new old mac sta s h e ne =
    let (r, stations, db, out) = on_connect_tracked new mac sta s h e in
    let sta' = connected_at_hap new (s.world.clock s.world.readings) sta in
    let there : lookup mac (on_connect new mac s).0.daemon.stations ≡ some sta' =
      rw stations (lookup-insert_self mac sta' s.daemon.stations) in
    latent_ignored old mac sta' (on_connect new mac s).0 there refl ne
