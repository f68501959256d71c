-- ===== src/Tests/Threads.antt =====
-- Goroutines of `Run`, alone and interleaved.
use wifi_presence.Base.{
  not, ◌&&◌, ◌+◌, ◌≡◌, ◌≤◌, refl, arith, false, some, none, [], ◌∷◌, ◌++◌, equal, codes,
}
use wifi_presence.Base.Int.{pos_part}
use wifi_presence.Base.Time.{is_zero}
use wifi_presence.Base.Maps.{lookup}
use wifi_presence.Hostapd.Event.{Event, station_connect}
use wifi_presence.Presence.Mac.{mac_key, mac_eq, to_string}
use wifi_presence.Presence.Debounce.{new_debouncer}
use wifi_presence.Presence.Delivery.{home_message, not_home_message, attrs_message}
use wifi_presence.Presence.Events.Branches.{
  absent_attrs, published, connected_attrs, connected_at_hap, disconnected_at,
}
use wifi_presence.Presence.Events.{timer_runs, timer_expires}
use wifi_presence.Presence.State.{Callback, State}
use wifi_presence.Presence.Threads.Race.{overlap, late_disconnect}
use wifi_presence.Tests.Fixtures.{mac1, hap1, hap2, phone, state, daemon}

-- The daemon with a shorter time of debouncing.
abbrev quick : State
quick = record state { daemon = record daemon { db = new_debouncer 500000000 } }

abbrev arrives : Event
arrives = station_connect (codes "AP-STA-CONNECTED 01:23:45:67:89:ab") (codes "01:23:45:67:89:ab")

abbrev callback : Callback
callback = record { mac = mac1; hap = hap1 }

quick_has_phone : lookup mac1 quick.daemon.stations ≡ some phone
unfolding lookup mac_eq
quick_has_phone = refl

here : (phone.connected && not (equal phone.bssid hap1.bssid)) ≡ false
unfolding equal
here = refl

none_queued : lookup mac1 quick.daemon.db.queue ≡ none
unfolding lookup new_debouncer
none_queued = refl

is_due : pos_part (quick.world.clock 3) + quick.daemon.db.debounce ≤ pos_part (quick.world.clock 4)
unfolding new_debouncer
is_due = ground arith

clock_runs : is_zero (quick.world.clock 0) ≡ false
unfolding is_zero
clock_runs = refl

late_disconnect_example :
    let d = quick.daemon in
    let clock = quick.world.clock in
    let t = d.db.created in
    let s' = (timer_runs t (timer_expires t (overlap hap1 hap2 mac1 quick)).0).0 in
    let back = connected_at_hap hap2 (clock 1) (disconnected_at (clock 0) phone) in
    (lookup mac1 s'.daemon.stations ≡ some back)
    × (published s'
        ≡ (((published quick ++ home_message d.hass (to_string mac1) ∷ [])
              ++ attrs_message d.hass (to_string mac1) (connected_attrs d hap2 back (clock 2)) ∷ [])
            ++ not_home_message d.hass (to_string mac1) ∷ [])
          ++ attrs_message d.hass
              (to_string mac1)
              (absent_attrs d hap1 phone (clock 1) (clock 0) (clock 5))
            ∷ [])
late_disconnect_example =
    late_disconnect hap1 hap2 mac1 phone quick (λ n. refl) quick_has_phone here none_queued
      clock_runs is_due
