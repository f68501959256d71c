-- ===== src/Hostapd/Station.antt =====
-- internal/hostapd/station.go: the reply to STA-FIRST and STA-NEXT.
pub mod Parse
use wifi_presence.Base.{
  Bool, true, false, none, some, List, [], ◌∷◌, if◌then◌else◌, Bytes, codes, equal, contains,
  split_pair,
}
use wifi_presence.Base.Errors.{Result, ok, err, ◌>>=◌, invalid_line, invalid_mac, station_fail}
use wifi_presence.Base.Int.{ℤ, pos, scale_int64}
use wifi_presence.Strconv.Atoi.{atoi}
use wifi_presence.Strconv.Lines.{scan_lines}
use wifi_presence.Hostapd.Mac.{is_mac}

-- `type Station struct`; durations are nanoseconds.
pub record Station : Type 0 where
  pub mac : Bytes
  pub associated : Bool
  pub rx_bytes : ℤ
  pub tx_bytes : ℤ
  pub connected : ℤ
  pub inactive : ℤ
  pub signal : ℤ

-- The zero value.
abbrev pub no_station : Station
no_station = record {
  mac = [];
  associated = false;
  rx_bytes = pos 0;
  tx_bytes = pos 0;
  connected = pos 0;
  inactive = pos 0;
  signal = pos 0;
}

-- The `switch key` of `Station.parse`. `time.Second * time.Duration(seconds)` wraps around.
unfoldable pub station_field : Bytes → Bytes → Station → Result Station
station_field key val s =
    if equal key (codes "flags")
    then ok (record s { associated = contains val (codes "[ASSOC]") })
    else if equal key (codes "rx_bytes")
    then atoi val >>= (λ n. ok (record s { rx_bytes = n }))
    else if equal key (codes "tx_bytes")
    then atoi val >>= (λ n. ok (record s { tx_bytes = n }))
    else if equal key (codes "connected_time")
    then atoi val >>= (λ n. ok (record s { connected = scale_int64 1000000000 n }))
    else if equal key (codes "inactive_msec")
    then atoi val >>= (λ n. ok (record s { inactive = scale_int64 1000000 n }))
    else if equal key (codes "signal")
    then atoi val >>= (λ n. ok (record s { signal = n }))
    else ok s

-- One round of the scanning loop, after the first.
unfoldable pub station_line : Bytes → Station → Result Station
unfolding station_field
station_line line s = elim (split_pair b'=' line) [
  | none ↦ err (invalid_line line)
  | some (key, val) ↦ station_field key val s
]

unfoldable pub station_lines : List Bytes → Station → Result Station
unfolding station_line
station_lines [] s = ok s
station_lines (line ∷ lines) s = station_line line s >>= station_lines lines

-- The scanning loop: the first line is the MAC address.
unfoldable pub station_reply : List Bytes → Station → Result Station
unfolding station_lines
station_reply [] s = ok s
station_reply (line ∷ lines) s =
    if is_mac line then station_lines lines (record s { mac = line }) else err (invalid_mac line)

-- `Station.parse`, on the zero value that `stationFirst` and `stationNext` pass.
unfoldable pub parse_station : Bytes → Result Station
unfolding station_reply scan_lines
parse_station p =
    if equal p (codes "FAIL\n") then err station_fail else station_reply (scan_lines p) no_station
