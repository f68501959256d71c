-- ===== src/Presence/Delivery.antt =====
-- What the calls of internal/hass do to the daemon's state where every token completes.
use wifi_presence.Base.{ℕ, ◌≡◌, true, none, [], ◌∷◌, ◌++◌, Bytes, length, codes}
use wifi_presence.Base.Errors.{ok}
use wifi_presence.Hass.Broker.{Message, text, attributes, completed, publish}
use wifi_presence.Hass.Messages.{Attrs}
use wifi_presence.Hass.Topics.{device_state, device_json_attrs}
use wifi_presence.Hass.Mqtt.{
  Mqtt, station_home, station_not_home, station_attributes, payload_home, payload_not_home,
  qos_at_least_once, qos_exactly_once,
}
use wifi_presence.Presence.State.{State, with_broker}

-- Every token completes with no error.
abbrev pub AllDelivered : State → Type 0
AllDelivered s = (n : ℕ) → s.world.broker.outcome n ≡ completed none

-- The state after a message was published.
abbrev pub sent : Message → State → State
sent msg s =
    let w = s.world in
    let b = w.broker in
    record s { world = record w { broker = record b { published = b.published ++ msg ∷ [] } } }

-- The retained messages of a station.
abbrev pub home_message : Mqtt → Bytes → Message
home_message m mac = record {
  topic = device_state m.topics mac;
  qos = qos_exactly_once;
  retained = true;
  payload = text payload_home;
}

abbrev pub not_home_message : Mqtt → Bytes → Message
not_home_message m mac = record {
  topic = device_state m.topics mac;
  qos = qos_exactly_once;
  retained = true;
  payload = text payload_not_home;
}

abbrev pub attrs_message : Mqtt → Bytes → Attrs → Message
attrs_message m mac attrs = record {
  topic = device_json_attrs m.topics mac;
  qos = qos_at_least_once;
  retained = true;
  payload = attributes attrs;
}

pub with_broker-publish :
    (msg : Message) (description : Bytes) (s : State)
    → AllDelivered s
    → with_broker (publish msg description) s ≡ (sent msg s, ok tt)
unfolding with_broker publish
with_broker-publish msg description s h = rw (h (length s.world.broker.published))

pub with_broker-station_home :
    (m : Mqtt) (mac : Bytes) (s : State)
    → AllDelivered s
    → with_broker (station_home m mac) s ≡ (sent (home_message m mac) s, ok tt)
unfolding station_home
with_broker-station_home m mac s h =
    with_broker-publish (home_message m mac) (codes "publish station state") s h

pub with_broker-station_not_home :
    (m : Mqtt) (mac : Bytes) (s : State)
    → AllDelivered s
    → with_broker (station_not_home m mac) s ≡ (sent (not_home_message m mac) s, ok tt)
unfolding station_not_home
with_broker-station_not_home m mac s h =
    with_broker-publish (not_home_message m mac) (codes "publish station state") s h

pub with_broker-station_attributes :
    (m : Mqtt) (mac : Bytes) (attrs : Attrs) (s : State)
    → AllDelivered s
    → with_broker (station_attributes m mac attrs) s ≡ (sent (attrs_message m mac attrs) s, ok tt)
unfolding station_attributes
with_broker-station_attributes m mac attrs s h =
    with_broker-publish (attrs_message m mac attrs) (codes "publish station attrs") s h
