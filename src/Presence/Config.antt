-- ===== src/Presence/Config.antt =====
-- internal/presence/daemon.go, `onConfigChange`. The log is left out.
pub mod Reapply
pub mod OnlyListed
pub mod Publishes
use wifi_presence.Base.{
  ℕ, Bool, true, false, not, ◌&&◌, Option, none, some, List, [], ◌∷◌, ◌++◌, Bytes, codes, equal,
  if◌then◌else◌,
}
use wifi_presence.Base.Errors.{Error, Result, ok, err, as_unknown_cmd}
use wifi_presence.Base.Int.{ℤ, pos}
use wifi_presence.Base.Maps.{Map, lookup, insert, erase}
use wifi_presence.Base.Time.{add_neg, sub_time, whole_seconds}
use wifi_presence.Hass.Messages.{Attrs, TrackConfig, Configuration}
use wifi_presence.Hass.Mqtt.{
  station_home, station_not_home, station_attributes, register_device_tracker,
  unregister_device_tracker,
}
use wifi_presence.Hostapd.Status.{Status}
use wifi_presence.Hostapd.Station as HostapdStation
use wifi_presence.Presence.Mac.{Mac, mac_key, decode, to_string}
use wifi_presence.Presence.Events.{get_daemon}
use wifi_presence.Presence.State.{
  Station, zero_station, Daemon, State, M, ◌>>=◌, ◌>>◌, return, lift, when, now, with_broker,
  list_stations, get_station, put_station, db_cancel,
}
use wifi_presence.Presence.Connected.{ConnectedStation, Connected, connected_or_none}

-- `type staChange int`.
pub data StaChange : Type 0 where
  sta_no_change sta_removed sta_added sta_updated : StaChange

-- `staChange.String`, which the log shows.
unfoldable pub change_text : StaChange → Bytes
change_text sta_no_change = codes "no-change"
change_text sta_removed = codes "removed"
change_text sta_added = codes "added"
change_text sta_updated = codes "updated"

abbrev pub Changes : Type 0
Changes = Map Mac StaChange

-- The `switch` of the diff.
unfoldable pub classify : Option Station → Bytes → StaChange
classify none name = sta_added
classify (some sta) name = if equal sta.name name then sta_no_change else sta_updated

unfoldable pub is_update : StaChange → Bool
is_update sta_no_change = false
is_update sta_removed = false
is_update sta_added = true
is_update sta_updated = true

unfoldable pub or_zero : Option Station → Station
or_zero none = zero_station
or_zero (some sta) = sta

-- The loop over the configured devices: `changes` and `hasUpdates`.
unfoldable pub diff_devices : List TrackConfig → Changes → Bool → M (Changes × Bool)
diff_devices [] changes has_updates = return (changes, has_updates)
diff_devices (dev ∷ devices) changes has_updates = do
  mac ← lift (decode dev.mac)
  sta ← get_station mac
  let change = classify sta dev.name
  put_station mac (record (or_zero sta) { name = dev.name; mac = mac })
  diff_devices devices (insert mac change changes) (if is_update change then true else has_updates)

-- The loop over the stations that the configuration no longer has, on the keys of `d.stations`.
unfoldable pub remove_missing : Map Mac Station → Changes → M Changes
remove_missing [] changes s = (s, ok changes)
remove_missing ((mac, sta) ∷ stations) changes s = elim (lookup mac changes) [
  | some change ↦ remove_missing stations changes s
  | none ↦
      let d = s.daemon in
      remove_missing stations (insert mac sta_removed changes)
        (record s { daemon = record d { stations = erase mac d.stations } })
]

unfoldable pub remove_all_missing : Changes → M Changes
remove_all_missing changes = do d ← get_daemon; remove_missing d.stations changes

-- The field `hassAutoDisc` guards both calls of the discovery messages.
unfoldable pub register : Station → M (Unit {0})
register sta = do
  d ← get_daemon
  when d.hass_auto_disc (with_broker (register_device_tracker d.hass sta.name (to_string sta.mac)))

unfoldable pub unregister : Mac → M (Unit {0})
unregister mac = do
  d ← get_daemon
  when d.hass_auto_disc (with_broker (unregister_device_tracker d.hass (to_string mac)))

-- A new station that is not connected.
unfoldable pub added_absent : Mac → Station → M (Unit {0})
added_absent mac sta = do
  put_station mac (record sta { connected = false })
  d ← get_daemon
  with_broker (station_not_home d.hass (to_string mac))

-- A new station that is connected.
unfoldable pub added_connected : Mac → Station → ConnectedStation → M (Unit {0})
added_connected mac sta cs = do
  t ← now
  let sta' = record sta {
    connected = true;
    connected_at = add_neg t cs.sta.connected;
    bssid = cs.hap_status.bssid;
  }
  put_station mac sta'
  cancelled ← db_cancel mac
  d ← get_daemon
  t' ← now
  let attrs : Attrs = record {
    name = sta.name;
    mac = to_string sta.mac;
    is_connected = true;
    ap_name = d.ap_name;
    ssid = cs.hap_status.ssid;
    bssid = cs.hap_status.bssid;
    connected_at = some sta'.connected_at;
    connected_for = whole_seconds (sub_time t' sta'.connected_at);
    disconnected_at = none;
    disconnected_for = pos 0;
  }
  with_broker (station_home d.hass (to_string mac))
  with_broker (station_attributes d.hass (to_string mac) attrs)

-- The `switch` on a change; `sta` is `d.stations[mac]`.
unfoldable pub process_change : Connected → Mac → StaChange → Station → M (Unit {0})
process_change connected mac sta_no_change sta = return tt
process_change connected mac sta_updated sta = register sta
process_change connected mac sta_added sta = do
  register sta
  elim (lookup mac connected) [ none ↦ added_absent mac sta | some cs ↦ added_connected mac sta cs ]
process_change connected mac sta_removed sta = do cancelled ← db_cancel mac; unregister mac

-- The loop over the changes.
unfoldable pub process_changes : Connected → Changes → M (Unit {0})
process_changes connected [] = return tt
process_changes connected ((mac, change) ∷ changes) = do
  sta ← get_station mac
  process_change connected mac change (or_zero sta)
  process_changes connected changes

-- What `onConfigChange` does with the changes, if there are any.
unfoldable pub apply_changes : (Changes → Changes) → Changes → Bool → M (Unit {0})
apply_changes order [] has_updates = return tt
apply_changes order (c ∷ changes) has_updates = do
  connected ← if has_updates then connected_or_none else return []
  process_changes connected (order (c ∷ changes))

-- `onConfigChange`. `order` is the order in which Go's map iteration visits the changes.
unfoldable pub on_config_change : (Changes → Changes) → Configuration → M (Unit {0})
on_config_change order cfg = do
  diff ← diff_devices cfg.devices [] false
  changes ← remove_all_missing diff.0
  apply_changes order changes diff.1
