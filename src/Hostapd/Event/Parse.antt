-- ===== src/Hostapd/Event/Parse.antt =====
-- What `parseEvent` returns.
use wifi_presence.Base.{true, ◌≡◌, ◌∷◌, [], arith, Bytes}
use wifi_presence.Base.Errors.{ok}
use wifi_presence.Hostapd.Mac.{is_mac}
use wifi_presence.Hostapd.Event.{
  Event, station_connect, station_disconnect, terminating, unrecognized, strip_priority,
  parse_stripped, parse_event,
}

-- What an event promises to the daemon.
abbrev pub IsSound : Bytes → Event → Type 0
IsSound msg (station_connect r mac) = (r ≡ msg) × (is_mac mac ≡ true)
IsSound msg (station_disconnect r mac) = (r ≡ msg) × (is_mac mac ≡ true)
IsSound msg (terminating r) = r ≡ msg
IsSound msg (unrecognized r) = r ≡ msg

parse_stripped-IsSound : (r msg : Bytes) (e : Event) → parse_stripped r msg ≡ ok e → IsSound r e
unfolding parse_stripped
parse_stripped-IsSound r msg (station_connect r' mac) h = ground arith
parse_stripped-IsSound r msg (station_disconnect r' mac) h = ground arith
parse_stripped-IsSound r msg (terminating r') h = ground arith
parse_stripped-IsSound r msg (unrecognized r') h = ground arith

-- Where `parseEvent` returns an event, the raw text of the event is the message, and the address
-- of a connect or disconnect event has the shape that `isMAC` accepts.
pub parse_event-IsSound : (msg : Bytes) {e : Event} → parse_event msg ≡ ok e → IsSound msg e
unfolding parse_event
parse_event-IsSound [] {e} h = absurd (ground arith)
parse_event-IsSound (c ∷ cs) {e} h = parse_stripped-IsSound (c ∷ cs) (strip_priority (c ∷ cs)) e h
