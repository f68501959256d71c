-- ===== src/Presence/Config/Publishes.antt =====
-- What the processing of a configuration's changes publishes.
pub mod Each
pub mod Added
pub mod Whole
pub mod Quiet
pub mod Distinct
pub mod Named
pub mod Handler
use wifi_presence.Base.{
  ℕ, suc, ◌≡◌, ◌≢◌, refl, Bool, true, false, Option, none, some, List, [], ◌∷◌, ◌++◌, Bytes, All,
  if◌then◌else◌,
}
use wifi_presence.Base.Int.{pos}
use wifi_presence.Base.Maps.{lookup}
use wifi_presence.Base.Time.{Time, add_neg, sub_time, whole_seconds}
use wifi_presence.Hass.Broker.{Message, Outcome, text, tracker}
use wifi_presence.Hass.Messages.{Attrs}
use wifi_presence.Hass.Mqtt.{Mqtt, device_tracker, qos_exactly_once}
use wifi_presence.Hass.Topics.{device_discovery}
use wifi_presence.Presence.Mac.{Mac, mac_key, to_string}
use wifi_presence.Presence.Connected.{ConnectedStation, Connected}
use wifi_presence.Presence.Config.{
  StaChange, sta_no_change, sta_removed, sta_added, sta_updated, Changes, is_update,
}
use wifi_presence.Presence.Delivery.{home_message, not_home_message, attrs_message}
use wifi_presence.Presence.State.{Station}

-- What the messages depend on: the daemon's settings, the clock, and the station of each MAC.
pub record View : Type 0 where
  pub hass : Mqtt
  pub ap_name : Bytes
  pub auto_disc : Bool
  pub clock : ℕ → Time
  pub station : Mac → Station

-- The retained messages of discovery, which Home Assistant reads.
abbrev pub tracker_message : Mqtt → Bytes → Bytes → Message
tracker_message m name mac = record {
  topic = device_discovery m.topics mac;
  qos = qos_exactly_once;
  retained = true;
  payload = tracker (device_tracker m name mac);
}

abbrev pub untracked_message : Mqtt → Bytes → Message
untracked_message m mac = record {
  topic = device_discovery m.topics mac;
  qos = qos_exactly_once;
  retained = true;
  payload = text [];
}

abbrev pub discovery_message : Mqtt → Station → Message
discovery_message m sta = tracker_message m sta.name (to_string sta.mac)

abbrev pub removal_message : Mqtt → Mac → Message
removal_message m mac = untracked_message m (to_string mac)

abbrev pub guarded : Bool → Message → List Message
guarded true msg = msg ∷ []
guarded false msg = []

-- The attributes of a new station that is connected, at the clock readings `t` and `t'`.
abbrev pub added_attrs : View → Station → ConnectedStation → Time → Time → Attrs
added_attrs v sta cs t t' =
    let since = add_neg t cs.sta.connected in
    record {
      name = sta.name;
      mac = to_string sta.mac;
      is_connected = true;
      ap_name = v.ap_name;
      ssid = cs.hap_status.ssid;
      bssid = cs.hap_status.bssid;
      connected_at = some since;
      connected_for = whole_seconds (sub_time t' since);
      disconnected_at = none;
      disconnected_for = pos 0;
    }

-- The messages of one new station, and those of one change, from the `n`-th clock reading on.
abbrev pub added_messages : View → ℕ → Mac → Station → Option ConnectedStation → List Message
added_messages v n mac sta none = not_home_message v.hass (to_string mac) ∷ []
added_messages v n mac sta (some cs) =
    home_message v.hass (to_string mac)
    ∷ attrs_message v.hass (to_string mac) (added_attrs v sta cs (v.clock n) (v.clock (suc n)))
    ∷ []

abbrev pub change_messages : View → Connected → ℕ → Mac → StaChange → List Message
change_messages v connected n mac sta_no_change = []
change_messages v connected n mac sta_updated =
    guarded v.auto_disc (discovery_message v.hass (v.station mac))
change_messages v connected n mac sta_removed = guarded v.auto_disc (removal_message v.hass mac)
change_messages v connected n mac sta_added =
    guarded v.auto_disc (discovery_message v.hass (v.station mac))
    ++ added_messages v n mac (v.station mac) (lookup mac connected)

-- How often the clock is read.
abbrev pub added_readings : ℕ → Option ConnectedStation → ℕ
added_readings n none = n
added_readings n (some cs) = suc (suc n)

abbrev pub change_readings : Connected → ℕ → Mac → StaChange → ℕ
change_readings connected n mac sta_no_change = n
change_readings connected n mac sta_updated = n
change_readings connected n mac sta_removed = n
change_readings connected n mac sta_added = added_readings n (lookup mac connected)

-- The messages of a list of changes, one change after the other.
abbrev pub all_messages : View → Connected → ℕ → Changes → List Message
all_messages v connected n [] = []
all_messages v connected n ((mac, c) ∷ changes) =
    change_messages v connected n mac c
    ++ all_messages v connected (change_readings connected n mac c) changes

-- How often the clock was read after a list of changes.
abbrev pub all_readings : Connected → ℕ → Changes → ℕ
all_readings connected n [] = n
all_readings connected n ((mac, c) ∷ changes) =
    all_readings connected (change_readings connected n mac c) changes

-- No two changes have the same MAC, as the keys of a Go map.
abbrev pub IsDistinct : Changes → Type 0
IsDistinct [] = Unit
IsDistinct ((mac, c) ∷ changes) =
    All (λ (e : Mac × StaChange). e.0 ≢ mac) changes × IsDistinct changes

-- Every device that is registered has a name.
abbrev pub AllNamed : View → Changes → Type 0
AllNamed v changes =
    All (λ (e : Mac × StaChange). is_update e.1 ≡ true → (v.station e.0).name ≢ []) changes
