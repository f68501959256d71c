-- ===== src/Tests/Parsers.antt =====
-- The parsers on concrete replies and events.
use wifi_presence.Base.{
  ◌≡◌, ◌↔◌, refl, arith, some, true, codes, [], Bytes, split_pair, has_prefix, trim_prefix,
  trim_space, trim_right, equal,
}
use wifi_presence.Base.Errors.{ok}
use wifi_presence.Base.Int.{pos, scale_int64}
use wifi_presence.Strconv.Atoi.{atoi}
use wifi_presence.Hostapd.Mac.{is_mac}
use wifi_presence.Hostapd.Mac.Decode.{is_mac-decode}
use wifi_presence.Hostapd.Event.{station_connect, station_disconnect, parse_event, disconnect_mac}
use wifi_presence.Hostapd.Event.Print.{prefixed, connect_message, parse_event-connect}
use wifi_presence.Hostapd.Station.{Station, no_station, parse_station}
use wifi_presence.Hostapd.Status.Ssid.{decode_ssid}
use wifi_presence.Hostapd.Status.Ssid.Encodes.{Encodes, decode_ssid_iff}
use wifi_presence.Presence.Mac.{Mac, IsMac, decode, to_string}
use wifi_presence.Presence.Mac.RoundTrip.{decode-to_string}
use wifi_presence.Tests.Fixtures.{mac1}

mac1-IsMac : IsMac mac1
mac1-IsMac = ground arith

decode-to_string_example : decode (to_string mac1) ≡ ok mac1
decode-to_string_example = decode-to_string mac1 mac1-IsMac

mac1_decodes : decode (codes "01:23:45:67:89:ab") ≡ ok mac1
unfolding decode
mac1_decodes = refl

lower_is_mac : is_mac (codes "01:23:45:67:89:ab") ≡ true
unfolding is_mac
lower_is_mac = refl

is_mac-decode_example : (m : Mac) × (decode (codes "01:23:45:67:89:ab") ≡ ok m) × IsMac m
is_mac-decode_example = is_mac-decode (codes "01:23:45:67:89:ab") lower_is_mac

parse_event-connect_example :
    let msg = prefixed (some b'3') (connect_message mac1 (codes "\n")) in
    parse_event msg ≡ ok (station_connect msg (to_string mac1))
parse_event-connect_example = parse_event-connect (some b'3') mac1 (codes "\n") mac1-IsMac

newline_space : trim_right (codes "\n") ≡ []
unfolding trim_right
newline_space = refl

disconnect_line :
    parse_event (codes "AP-STA-DISCONNECTED 01:23:45:67:89:ab")
    ≡ ok (
        station_disconnect
          (codes "AP-STA-DISCONNECTED 01:23:45:67:89:ab")
          (codes "01:23:45:67:89:ab"))
unfolding parse_event has_prefix is_mac disconnect_mac trim_space trim_prefix
disconnect_line = refl

decode_ssid_iff_example :
    (decode_ssid (codes "a\\x41\\n") ≡ ok (codes "aA\n"))
    ↔ Encodes (codes "a\\x41\\n") (codes "aA\n")
decode_ssid_iff_example = decode_ssid_iff (codes "a\\x41\\n") (codes "aA\n")

abbrev reply : Bytes
reply = codes "01:23:45:67:89:ab\nconnected_time=5\n"

abbrev connected_station : Station
connected_station = record no_station {
  mac = codes "01:23:45:67:89:ab";
  connected = pos 5000000000;
}

reply_parses : parse_station reply ≡ ok connected_station
unfolding parse_station equal is_mac split_pair atoi scale_int64
reply_parses = refl
