-- ===== src/Tests/Events.antt =====
-- The handler of events on concrete events.
use wifi_presence.Presence.Delivery.{home_message, attrs_message}
use wifi_presence.Base.{
  equal, ◌&&◌, [], ◌∷◌, ◌++◌, if◌then◌else◌, ◌≡◌, ◌≢◌, refl, arith, some, none, codes,
}
use wifi_presence.Presence.Debounce.{cancel}
use wifi_presence.Base.{has_prefix, trim_space, trim_prefix}
use wifi_presence.Hostapd.Mac.{is_mac}
use wifi_presence.Hostapd.Event.{connect_mac}
use wifi_presence.Base.Maps.{insert, lookup}
use wifi_presence.Base.Errors.{ok}
use wifi_presence.Hostapd.Event.{parse_event, station_connect}
use wifi_presence.Presence.Mac.{to_string, mac_key, mac_eq}
use wifi_presence.Presence.Events.{on_connect, on_disconnect, on_hostapd_event}
use wifi_presence.Presence.Events.Branches.{
  connected_attrs, published, connected_at_hap, on_connect_tracked,
}
use wifi_presence.Presence.Events.Total.{on_hostapd_event_total, roaming}
use wifi_presence.Tests.Fixtures.{mac1, mac2, mac3, hap1, hap2, phone, laptop, state}

has_phone : lookup mac1 state.daemon.stations ≡ some phone
unfolding lookup mac_eq
has_phone = refl

has_laptop : lookup mac2 state.daemon.stations ≡ some laptop
unfolding lookup mac_eq
has_laptop = refl

has_no_mac3 : lookup mac3 state.daemon.stations ≡ none
unfolding lookup mac_eq
has_no_mac3 = refl

other_bssid : hap2.bssid ≢ hap1.bssid
other_bssid = λ e. ground arith

roaming_example :
    let s' = (on_connect hap2 mac1 state).0 in on_disconnect hap1 mac1 s' ≡ (s', ok tt)
roaming_example = roaming hap2 hap1 mac1 phone state (λ n. refl) has_phone other_bssid

on_connect_tracked_example :
    let sta' = connected_at_hap hap2 (state.world.clock 0) phone in
    let s' = (on_connect hap2 mac1 state).0 in
    ((on_connect hap2 mac1 state).1 ≡ ok tt)
    × (s'.daemon.stations ≡ insert mac1 sta' state.daemon.stations)
    × (s'.daemon.db ≡ (cancel mac1 state.daemon.db).0)
    × (published s' ≡ (
        if phone.connected && equal phone.bssid hap2.bssid
        then published state
        else (published state ++ home_message state.daemon.hass (to_string mac1) ∷ [])
          ++ attrs_message state.daemon.hass
              (to_string mac1)
              (connected_attrs state.daemon hap2 sta' (state.world.clock 1))
            ∷ []))
on_connect_tracked_example = on_connect_tracked hap2 mac1 phone state (λ n. refl) has_phone

connect_line :
    parse_event (codes "<3>AP-STA-CONNECTED 01:23:45:67:89:ab")
    ≡ ok (
        station_connect (codes "<3>AP-STA-CONNECTED 01:23:45:67:89:ab") (codes "01:23:45:67:89:ab"))
unfolding parse_event has_prefix is_mac connect_mac trim_space trim_prefix
connect_line = refl

on_hostapd_event_total_example :
    (on_hostapd_event hap2
      (station_connect (codes "<3>AP-STA-CONNECTED 01:23:45:67:89:ab") (codes "01:23:45:67:89:ab"))
      state).1
    ≡ ok tt
on_hostapd_event_total_example =
    on_hostapd_event_total hap2 (codes "<3>AP-STA-CONNECTED 01:23:45:67:89:ab") state (λ n. refl)
      connect_line
