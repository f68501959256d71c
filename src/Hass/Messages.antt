-- ===== src/Hass/Messages.antt =====
-- internal/hass/messages.go: what is exchanged over MQTT, as the values that encoding/json reads and
-- writes.
use wifi_presence.Base.{ℕ, Bool, Option, List, Bytes}
use wifi_presence.Base.Int.{ℤ}
use wifi_presence.Base.Time.{Time}

-- `type TrackConfig struct`.
pub record TrackConfig : Type 0 where
  pub name : Bytes
  pub mac : Bytes

-- `type Configuration struct`.
pub record Configuration : Type 0 where
  pub devices : List TrackConfig

-- `type Device struct`.
pub record Device : Type 0 where
  pub connections : List (Bytes × Bytes)
  pub name : Bytes
  pub via_device : Bytes
  pub manufacturer : Bytes

-- `type DeviceTracker struct`.
pub record DeviceTracker : Type 0 where
  pub availability_topic : Bytes
  pub device : Device
  pub icon : Bytes
  pub json_attributes_topic : Bytes
  pub name : Bytes
  pub object_id : Bytes
  pub payload_available : Bytes
  pub payload_home : Bytes
  pub payload_not_available : Bytes
  pub payload_not_home : Bytes
  pub qos : ℕ
  pub source_type : Bytes
  pub state_topic : Bytes
  pub unique_id : Bytes

-- `type Attrs struct`; the zero values of omitted fields are `none` and 0.
pub record Attrs : Type 0 where
  pub name : Bytes
  pub mac : Bytes
  pub is_connected : Bool
  pub ap_name : Bytes
  pub ssid : Bytes
  pub bssid : Bytes
  pub connected_at : Option Time
  pub connected_for : ℤ
  pub disconnected_at : Option Time
  pub disconnected_for : ℤ
