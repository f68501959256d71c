-- ===== src/Hass/Topics.antt =====
-- internal/hass/topics.go: the MQTT topics. Text is bytes; what `ToLower` gets is ASCII.
pub mod Distinct
use wifi_presence.Base.{
  ℕ, ◌+◌, Bool, ◌&&◌, ◌||◌, List, [], ◌∷◌, ◌++◌, map, ◌==◌, leb, if◌then◌else◌, Bytes, codes,
}

-- `type MQTTTopics struct`.
pub record MqttTopics : Type 0 where
  pub name : Bytes
  pub prefix : Bytes
  pub hass_prefix : Bytes

-- `strings.Join(parts, "/")`.
unfoldable pub mk_topic : List Bytes → Bytes
mk_topic [] = []
mk_topic (p ∷ []) = p
mk_topic (p ∷ q ∷ parts) = p ++ (b'/' ∷ mk_topic (q ∷ parts))

-- The class `[a-zA-Z0-9_-]`, whose complement the regular expressions match.
unfoldable pub is_topic_char : ℕ → Bool
is_topic_char c =
    (leb b'a' c && leb c b'z')
    || (leb b'A' c && leb c b'Z')
    || (leb b'0' c && leb c b'9')
    || c == b'_'
    || c == b'-'

-- `hassTopicRe.ReplaceAllString(v, "")`, and so `hassObjectIDRe`.
unfoldable pub keep_topic_chars : Bytes → Bytes
unfolding is_topic_char
keep_topic_chars [] = []
keep_topic_chars (c ∷ cs) = if is_topic_char c then c ∷ keep_topic_chars cs else keep_topic_chars cs

unfoldable pub to_lower_char : ℕ → ℕ
to_lower_char c = if leb b'A' c && leb c b'Z' then c + 32 else c

-- `strings.ToLower` on ASCII text.
abbrev pub to_lower : Bytes → Bytes
to_lower = map to_lower_char

-- `strings.ReplaceAll(s, old, new)` with one-byte texts.
unfoldable pub replace_char : ℕ → ℕ → ℕ → ℕ
replace_char old new c = if c == old then new else c

unfoldable pub sanitize_topic : Bytes → Bytes
unfolding keep_topic_chars to_lower_char
sanitize_topic v = to_lower (keep_topic_chars v)

unfoldable pub sanitize_mac_topic : Bytes → Bytes
unfolding to_lower_char replace_char
sanitize_mac_topic mac = to_lower (map (replace_char b':' b'-') mac)

-- `Will`.
unfoldable pub will_topic : MqttTopics → Bytes
unfolding mk_topic sanitize_topic
will_topic m = mk_topic (m.prefix ∷ sanitize_topic m.name ∷ codes "status" ∷ [])

-- `Config`.
unfoldable pub config_topic : MqttTopics → Bytes
unfolding mk_topic
config_topic m = mk_topic (m.prefix ∷ codes "config" ∷ [])

-- `DeviceDiscovery`.
unfoldable pub device_discovery : MqttTopics → Bytes → Bytes
unfolding mk_topic sanitize_topic sanitize_mac_topic
device_discovery m mac = mk_topic (
    m.hass_prefix
    ∷ codes "device_tracker"
    ∷ sanitize_topic m.name
    ∷ sanitize_mac_topic mac
    ∷ codes "config"
    ∷ [])

-- `DeviceState`.
unfoldable pub device_state : MqttTopics → Bytes → Bytes
unfolding mk_topic sanitize_topic sanitize_mac_topic
device_state m mac = mk_topic (
    m.prefix
    ∷ codes "station"
    ∷ sanitize_topic m.name
    ∷ sanitize_mac_topic mac
    ∷ codes "state"
    ∷ [])

-- `DeviceJSONAttrs`.
unfoldable pub device_json_attrs : MqttTopics → Bytes → Bytes
unfolding mk_topic sanitize_topic sanitize_mac_topic
device_json_attrs m mac = mk_topic (
    m.prefix
    ∷ codes "station"
    ∷ sanitize_topic m.name
    ∷ sanitize_mac_topic mac
    ∷ codes "attrs"
    ∷ [])
