-- ===== src/Hass/Broker.antt =====
-- The MQTT client that internal/hass calls: what is published, and how each token completes.
use wifi_presence.Base.{ℕ, Bool, Option, none, some, List, [], ◌∷◌, ◌++◌, Bytes, length}
use wifi_presence.Base.Errors.{Error, wrapped, token_timeout}
use wifi_presence.Hass.Messages.{Attrs, DeviceTracker}

-- A message's payload: a text, or a value that `json.Marshal` encodes.
pub data Payload : Type 0 where
  text : Bytes → Payload
  tracker : DeviceTracker → Payload
  attributes : Attrs → Payload

-- The arguments of `Publish`.
pub record Message : Type 0 where
  pub topic : Bytes
  pub qos : ℕ
  pub retained : Bool
  pub payload : Payload

-- What `tokenWait` meets: the token completes, with or without an error, or a second passes first.
pub data Outcome : Type 0 where
  completed : Option Error → Outcome
  timed_out : Outcome

-- The connection to the broker: the messages published so far, and the outcome of each.
pub record Broker : Type 0 where
  pub published : List Message
  pub outcome : ℕ → Outcome

-- `tokenWait`.
unfoldable pub token_wait : Outcome → Bytes → Option Error
token_wait (completed none) description = none
token_wait (completed (some e)) description = some (wrapped description e)
token_wait timed_out description = some (token_timeout description)

-- `tkn := m.c.Publish(...)` and `tokenWait(ctx, tkn, description)`.
unfoldable pub publish : Message → Bytes → Broker → Broker × Option Error
unfolding token_wait
publish msg description b = (
  record b { published = b.published ++ msg ∷ [] },
  token_wait (b.outcome (length b.published)) description,
)
