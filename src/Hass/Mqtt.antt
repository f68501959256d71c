-- ===== src/Hass/Mqtt.antt =====
-- internal/hass/mqtt.go: the messages that are published. A context only bounds the waiting, which the
-- outcome of a token stands for.
use wifi_presence.Base.{
  ℕ, Bool, true, false, Option, some, [], ◌∷◌, ◌++◌, ◌==◌, if◌then◌else◌, Bytes, codes, ◌||◌,
}
use wifi_presence.Base.Errors.{Error, blank, Result, ok, err}
use wifi_presence.Hass.Messages.{Attrs, DeviceTracker}
use wifi_presence.Hass.Topics.{
  MqttTopics, keep_topic_chars, to_lower_char, to_lower, will_topic, device_discovery, device_state,
  device_json_attrs,
}
use wifi_presence.Hass.Vendors.{vendor_by_mac}
use wifi_presence.Hass.Broker.{Broker, Message, Payload, text, tracker, attributes, publish}

abbrev pub status_online : Bytes
status_online = codes "online"

abbrev pub status_offline : Bytes
status_offline = codes "offline"

abbrev pub payload_home : Bytes
payload_home = codes "connected"

abbrev pub payload_not_home : Bytes
payload_not_home = codes "not_connected"

abbrev pub source_router : Bytes
source_router = codes "router"

abbrev pub icon : Bytes
icon = codes "mdi:wifi-marker"

abbrev pub qos_at_least_once : ℕ
qos_at_least_once = 1

abbrev pub qos_exactly_once : ℕ
qos_exactly_once = 2

-- `type MQTTOpts struct`.
pub record MqttOpts : Type 0 where
  pub broker_addr : Bytes
  pub client_id : Bytes
  pub username : Bytes
  pub password : Bytes
  pub ap_name : Bytes
  pub topic_prefix : Bytes
  pub discovery_prefix : Bytes

-- `type MQTT struct`, without the client.
pub record Mqtt : Type 0 where
  pub topics : MqttTopics
  pub ap_name : Bytes

-- `if v == "" { v = fallback }`
unfoldable pub or_default : Bytes → Bytes → Bytes
or_default [] fallback = fallback
or_default (c ∷ cs) fallback = c ∷ cs

-- `v != ""`
unfoldable pub is_set : Bytes → Bool
is_set [] = false
is_set (c ∷ cs) = true

-- The options that `NewMQTT` gives to the MQTT client: its identifier, whether it has credentials,
-- and its will.
pub record ClientOptions : Type 0 where
  pub client_id : Bytes
  pub has_credentials : Bool
  pub will : Message

-- `NewMQTT` up to the `Connect` call: the options, and the manager that it returns on success.
unfoldable pub new_mqtt : MqttOpts → Result (ClientOptions × Mqtt)
unfolding or_default will_topic is_set
new_mqtt opts =
    let topics : MqttTopics = record {
      name = opts.ap_name;
      prefix = or_default opts.topic_prefix (codes "wifi-presence");
      hass_prefix = or_default opts.discovery_prefix (codes "homeassistant");
    } in
    let client : ClientOptions = record {
      client_id = or_default opts.client_id (codes "wifi-presence:" ++ opts.ap_name);
      has_credentials = is_set opts.username || is_set opts.password;
      will = record {
        topic = will_topic topics;
        qos = qos_at_least_once;
        retained = true;
        payload = text status_offline;
      };
    } in
    if is_set opts.ap_name
    then ok (client, record { topics = topics; ap_name = opts.ap_name })
    else err (blank (codes "APName"))

abbrev retain : Bytes → ℕ → Payload → Message
retain topic qos payload = record { topic = topic; qos = qos; retained = true; payload = payload }

-- `publishStatus`, `StatusOnline` and `StatusOffline`.
unfoldable pub publish_status : Mqtt → Bytes → Broker → Broker × Option Error
publish_status m status =
    publish (retain (will_topic m.topics) qos_exactly_once (text status))
      (codes "publish station status")

-- `publishStationState`, which `StationHome` and `StationNotHome` call.
unfoldable pub publish_station_state : Mqtt → Bytes → Bytes → Broker → Broker × Option Error
publish_station_state m mac state =
    publish (retain (device_state m.topics mac) qos_exactly_once (text state))
      (codes "publish station state")

unfoldable pub station_home : Mqtt → Bytes → Broker → Broker × Option Error
unfolding publish_station_state
station_home m mac = publish_station_state m mac payload_home

unfoldable pub station_not_home : Mqtt → Bytes → Broker → Broker × Option Error
unfolding publish_station_state
station_not_home m mac = publish_station_state m mac payload_not_home

-- `StationAttributes`.
unfoldable pub station_attributes : Mqtt → Bytes → Attrs → Broker → Broker × Option Error
station_attributes m mac attrs =
    publish (retain (device_json_attrs m.topics mac) qos_at_least_once (attributes attrs))
      (codes "publish station attrs")

-- `strings.ReplaceAll(mac, ":", "")`
unfoldable pub without_colons : Bytes → Bytes
without_colons [] = []
without_colons (c ∷ cs) = if c == b':' then without_colons cs else c ∷ without_colons cs

-- The `deviceID` of `RegisterDeviceTracker`.
unfoldable pub device_id : Bytes → Bytes → Bytes
unfolding keep_topic_chars to_lower_char without_colons
device_id mac ap_name = to_lower (without_colons mac ++ (b'_' ∷ keep_topic_chars ap_name))

-- The struct that `RegisterDeviceTracker` publishes.
unfoldable pub device_tracker : Mqtt → Bytes → Bytes → DeviceTracker
unfolding device_id
device_tracker m name mac = record {
  availability_topic = will_topic m.topics;
  device = record {
    connections = (codes "mac", mac) ∷ [];
    name = name;
    via_device = m.ap_name;
    manufacturer = vendor_by_mac mac;
  };
  icon = icon;
  json_attributes_topic = device_json_attrs m.topics mac;
  name = name ++ (b' ' ∷ m.ap_name);
  object_id = device_id mac m.ap_name;
  payload_available = status_online;
  payload_home = payload_home;
  payload_not_available = status_offline;
  payload_not_home = payload_not_home;
  qos = qos_exactly_once;
  source_type = source_router;
  state_topic = device_state m.topics mac;
  unique_id = codes "wifipresence_" ++ device_id mac m.ap_name;
}

-- `RegisterDeviceTracker`.
unfoldable pub register_device_tracker : Mqtt → Bytes → Bytes → Broker → Broker × Option Error
register_device_tracker m [] mac b = (b, some (blank (codes "Name")))
register_device_tracker m (n ∷ name) [] b = (b, some (blank (codes "MAC")))
register_device_tracker m (n ∷ name) (c ∷ mac) b =
    publish
      (retain (device_discovery m.topics (c ∷ mac)) qos_exactly_once
        (tracker (device_tracker m (n ∷ name) (c ∷ mac))))
      (codes "publish station discovery") b

-- `UnregisterDeviceTracker`: an empty message.
unfoldable pub unregister_device_tracker : Mqtt → Bytes → Broker → Broker × Option Error
unregister_device_tracker m [] b = (b, some (blank (codes "MAC")))
unregister_device_tracker m (c ∷ mac) b =
    publish (retain (device_discovery m.topics (c ∷ mac)) qos_exactly_once (text []))
      (codes "publish station un-discovery") b
