-- ===== src/Tests/Program.antt =====
-- A run of the whole program: a configuration, a connect event and two sections of its goroutine.
use wifi_presence.Base.Int.{pos}
use wifi_presence.Base.{◌≡◌, refl, true, List, some, [], ◌∷◌, All, codes}
use wifi_presence.Base.Errors.{Result, ok}
use wifi_presence.Base.Maps.{lookup, insert}
use wifi_presence.Hass.Messages.{Configuration}
use wifi_presence.Hostapd.Event.{Event, station_connect}
use wifi_presence.Presence.Mac.{mac_key, mac_eq, decode, to_string}
use wifi_presence.Presence.Debounce.Invariant.{new_debouncer-Inv}
use wifi_presence.Presence.State.{
  Daemon, ◌>>=◌, zero_station, get_station, put_station, now, with_broker, list_stations,
}
use wifi_presence.Presence.Events.{get_daemon}
use wifi_presence.Presence.Connected.{
  connected_or_none, connected_stations, connected_from, add_stations,
}
use wifi_presence.Hass.Mqtt.{register_device_tracker, device_tracker, station_not_home}
use wifi_presence.Hass.Broker.{publish}
use wifi_presence.Presence.Config.{
  Changes, diff_devices, remove_all_missing, remove_missing, apply_changes, is_update, classify,
  process_changes, process_change, register, added_absent, or_zero, on_config_change,
}
use wifi_presence.Presence.Threads.{handler, advance}
use wifi_presence.Presence.Program.{
  Program, Reach, here, next, event, handles, configures, start, update, nth,
}
use wifi_presence.Presence.Program.Keeps.{IsOwn}
use wifi_presence.Presence.Program.Safety.{stored_keyed}
use wifi_presence.Hostapd.Status.{Status}
use wifi_presence.Presence.Construction.{
  Opt, with_ap_name, with_hass_opt, with_hostapd, with_debounce, with_hass_autodiscovery, apply_opt,
  apply_opts, statuses, or_debouncer, new_daemon,
}
use wifi_presence.Presence.Construction.Built.{new_daemon-IsOwn}
use wifi_presence.Tests.Fixtures.{mac1, hap1, hap2, state, daemon}

abbrev config : Configuration
config = record { devices = record { name = codes "Phone"; mac = codes "01:23:45:67:89:ab" } ∷ [] }

abbrev arrives : Event
arrives = station_connect (codes "AP-STA-CONNECTED 01:23:45:67:89:ab") (codes "01:23:45:67:89:ab")

abbrev empty : Daemon
empty = record daemon { stations = [] }

abbrev same : Changes → Changes
same changes = changes

abbrev started : Program
started = start empty state.world

abbrev waiting : Program
waiting = record started { haps = update started.haps 1 (handler hap2 arrives) }

abbrev configured : Program
configured = record waiting { state = (on_config_change same config waiting.state).0 }

abbrev run_section : Program → Program
run_section p = record p {
  state = (advance (p.haps 1) p.state).0;
  haps = update p.haps 1 (advance (p.haps 1) p.state).1;
}

abbrev connected : Program
connected = run_section (run_section (run_section configured))

hap2_there : nth 1 empty.haps ≡ some hap2
unfolding nth
hap2_there = refl

reaches_configured : Reach same started configured
reaches_configured = next (next here (event 1 hap2 arrives hap2_there refl)) (configures config)

reaches_connected : Reach same started connected
reaches_connected = next (next (next reaches_configured (handles 1)) (handles 1)) (handles 1)

-- A client is the status that it gives.
abbrev give : Status → Unit {0} → Unit {0} × Result Status
give hap w = (w, ok hap)

abbrev options : List (Opt Status)
options =
    with_ap_name (codes "AP")
    ∷ with_hass_opt daemon.hass
    ∷ with_debounce (pos 10000000000)
    ∷ with_hass_autodiscovery true
    ∷ with_hostapd hap1
    ∷ with_hostapd hap2
    ∷ []

builds_empty : new_daemon give options tt ≡ (tt, ok empty)
unfolding new_daemon apply_opts apply_opt statuses or_debouncer
builds_empty = refl

new_daemon-IsOwn_example : All (IsOwn empty.hass) connected.state.world.broker.published
new_daemon-IsOwn_example =
    new_daemon-IsOwn give options tt state.world (λ P changes h. h) builds_empty refl
      reaches_connected

has_phone :
    lookup mac1 configured.state.daemon.stations
    ≡ some (record zero_station { name = codes "Phone"; mac = mac1 })
unfolding on_config_change ◌>>=◌ diff_devices decode get_station put_station remove_all_missing
    get_daemon remove_missing insert lookup mac_eq apply_changes is_update classify
    connected_or_none connected_stations connected_from list_stations add_stations process_changes
    process_change register now with_broker register_device_tracker device_tracker added_absent
    station_not_home publish or_zero to_string
has_phone = refl

stored_keyed_example : (record zero_station { name = codes "Phone"; mac = mac1 }).mac ≡ mac1
stored_keyed_example =
    stored_keyed empty state.world mac1 (λ P changes h. h) refl (new_debouncer-Inv 10000000000) refl
      reaches_configured has_phone
