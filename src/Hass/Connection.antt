-- ===== src/Hass/Connection.antt =====
-- internal/hass/mqtt.go: the connection to the broker, from `NewMQTT` to the status and the loss of it.
use wifi_presence.Base.{refl, ◌≡◌, Option, none, some, List, [], ◌∷◌, Bytes, codes}
use wifi_presence.Base.Errors.{Error, Result, ok, err, wrapped}
use wifi_presence.Hass.Broker.{Broker}
use wifi_presence.Hass.Mqtt.{
  Mqtt, MqttOpts, ClientOptions, new_mqtt, publish_status, status_online, status_offline,
}
use wifi_presence.Hass.Topics.{config_topic}

-- What the `select` of `NewMQTT` meets: the context ends first, or the token of `Connect` completes.
pub data Connecting : Type 0 where
  context_ended : Error → Connecting
  completed : Option Error → Connecting

unfoldable pub connected : Mqtt → Connecting → Result Mqtt
connected m (context_ended e) = err (wrapped (codes "timeout waiting for MQTT Connect") e)
connected m (completed (some e)) = err (wrapped (codes "MQTT Connect error") e)
connected m (completed none) = ok m

abbrev pub connect_built : Connecting → Result (ClientOptions × Mqtt) → Result Mqtt
connect_built c (err e) = err e
connect_built c (ok (options, m)) = connected m c

-- `NewMQTT`, with the `Connect` call.
unfoldable pub connect_mqtt : MqttOpts → Connecting → Result Mqtt
unfolding connected
connect_mqtt opts c = connect_built c (new_mqtt opts)

-- The handler of a lost connection: the channel `connLostErrs` has room for one error, and a second
-- one is dropped.
unfoldable pub connection_lost : Error → Option Error → Option Error
connection_lost e none = some (wrapped (codes "MQTT connection lost") e)
connection_lost e (some first) = some first

-- The channel after the connection was lost with each of the errors.
unfoldable pub lost_errors : List Error → Option Error → Option Error
lost_errors [] c = c
lost_errors (e ∷ es) c = lost_errors es (connection_lost e c)

-- `OnConnectionLost`, when its `select` takes the error or the end of the context.
unfoldable pub on_connection_lost : Option Error → Option Error
on_connection_lost c = c

-- `StatusOnline` and `StatusOffline`.
unfoldable pub publish_online : Mqtt → Broker → Broker × Option Error
publish_online m = publish_status m status_online

unfoldable pub publish_offline : Mqtt → Broker → Broker × Option Error
publish_offline m = publish_status m status_offline

-- `ConfigTopic`.
unfoldable pub subscribed_topic : Mqtt → Bytes
subscribed_topic m = config_topic m.topics

lost_errors-some : (es : List Error) (x : Error) → lost_errors es (some x) ≡ some x
unfolding lost_errors connection_lost
lost_errors-some [] x = refl
lost_errors-some (e ∷ es) x = lost_errors-some es x

-- However often the connection is lost before `OnConnectionLost` reads the channel, it returns the first
-- error, wrapped once.
pub on_connection_lost-first :
    (e : Error) (es : List Error)
    → on_connection_lost (lost_errors (e ∷ es) none)
      ≡ some (wrapped (codes "MQTT connection lost") e)
unfolding on_connection_lost lost_errors connection_lost
on_connection_lost-first e es = lost_errors-some es (wrapped (codes "MQTT connection lost") e)
