-- ===== src/Hostapd/Event.antt =====
-- internal/hostapd/event.go: the unsolicited messages of the control interface.
pub mod Parse
pub mod Print
use wifi_presence.Base.{
  ℕ, Bool, true, false, ◌&&◌, List, [], ◌∷◌, ◌==◌, ltb, if◌then◌else◌, Bytes, codes, equal,
  has_prefix, trim_prefix, trim_space, take, length,
}
use wifi_presence.Base.Errors.{Result, ok, err, empty_message, invalid_mac}
use wifi_presence.Hostapd.Mac.{is_mac, mac_length}

abbrev pub event_ap_sta_disconnected : Bytes
event_ap_sta_disconnected = codes "AP-STA-DISCONNECTED"

abbrev pub event_ap_sta_connected : Bytes
event_ap_sta_connected = codes "AP-STA-CONNECTED"

abbrev pub event_wpa_terminating : Bytes
event_wpa_terminating = codes "CTRL-EVENT-TERMINATING"

-- The implementations of the interface `Event`: the raw text, and the MAC address of the two structs.
pub data Event : Type 0 where
  station_connect : Bytes → Bytes → Event
  station_disconnect : Bytes → Bytes → Event
  terminating : Bytes → Event
  unrecognized : Bytes → Event

-- The `Raw` methods.
unfoldable pub raw : Event → Bytes
raw (station_connect r mac) = r
raw (station_disconnect r mac) = r
raw (terminating r) = r
raw (unrecognized r) = r

-- `<3>`: a one-byte priority level between angle brackets.
unfoldable pub strip_priority : Bytes → Bytes
strip_priority (a ∷ b ∷ c ∷ rest) = if a == b'<' && c == b'>' then rest else a ∷ b ∷ c ∷ rest
strip_priority msg = msg

-- The MAC address of a connect message: what follows it is cut off.
unfoldable pub connect_mac : Bytes → Bytes
connect_mac msg =
    let mac = trim_space (trim_prefix msg event_ap_sta_connected) in
    if ltb mac_length (length mac) then take mac_length mac else mac

unfoldable pub disconnect_mac : Bytes → Bytes
disconnect_mac msg = trim_space (trim_prefix msg event_ap_sta_disconnected)

connect_event : Bytes → Bytes → Result Event
connect_event r mac = if is_mac mac then ok (station_connect r mac) else err (invalid_mac mac)

disconnect_event : Bytes → Bytes → Result Event
disconnect_event r mac = if is_mac mac then ok (station_disconnect r mac) else err (invalid_mac mac)

-- The `switch` of `parseEvent`, on the message without its priority.
unfoldable pub parse_stripped : Bytes → Bytes → Result Event
unfolding connect_event disconnect_event
parse_stripped r msg =
    if has_prefix msg event_ap_sta_connected
    then connect_event r (connect_mac msg)
    else if has_prefix msg event_ap_sta_disconnected
    then disconnect_event r (disconnect_mac msg)
    else if equal msg event_wpa_terminating
    then ok (terminating r)
    else ok (unrecognized r)

-- `parseEvent`.
unfoldable pub parse_event : Bytes → Result Event
unfolding parse_stripped strip_priority
parse_event [] = err empty_message
parse_event (c ∷ cs) = parse_stripped (c ∷ cs) (strip_priority (c ∷ cs))
