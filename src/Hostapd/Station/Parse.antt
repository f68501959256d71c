-- ===== src/Hostapd/Station/Parse.antt =====
-- What `Station.parse` returns.
use wifi_presence.Base.{
  refl, inr, inl, Bool-cases, split_pair, Option-cases, ◌∙◌, ◌≢◌, true, List, [], ◌∷◌, ◌≡◌, arith,
  Bytes, codes, equal,
}
use wifi_presence.Base.Errors.{ok, >>=-cases}
use wifi_presence.Strconv.Lines.{scan_lines, scan_lines-ne-nil}
use wifi_presence.Hostapd.Station.{
  scan_lines, is_mac, Station, no_station, station_field, station_line, station_lines,
  station_reply, parse_station,
}

-- A field never changes the MAC address.
station_field-mac :
    (key val : Bytes) (s : Station) {t : Station} → station_field key val s ≡ ok t → t.mac ≡ s.mac
unfolding station_field
station_field-mac key val s h = ground arith

station_line-mac :
    (line : Bytes) (s : Station) {t : Station} → station_line line s ≡ ok t → t.mac ≡ s.mac
station_line-mac line s {t} h = elim (Option-cases (split_pair b'=' line)) [
  | inl e ↦ absurd (unfold station_line in ground arith)
  | inr ((key, val), e) ↦ station_field-mac key val s {t = t} (unfold station_line in ground arith)
]

station_lines-mac :
    (lines : List Bytes) (s : Station) {t : Station} → station_lines lines s ≡ ok t → t.mac ≡ s.mac
unfolding station_lines
station_lines-mac [] s h = ground arith
station_lines-mac (line ∷ lines) s h =
    let (s', p, q) = >>=-cases (station_line line s) (station_lines lines) h in
    station_lines-mac lines s' q ∙ station_line-mac line s p

station_reply-is_mac :
    (lines : List Bytes) {t : Station}
    → lines ≢ []
    → station_reply lines no_station ≡ ok t
    → is_mac t.mac ≡ true
unfolding station_reply
station_reply-is_mac [] ne h = absurd (ne refl)
station_reply-is_mac (line ∷ lines) {t} ne h = elim (Bool-cases (is_mac line)) [
  | inl good ↦
      let read : station_lines lines (record no_station { mac = line }) ≡ ok t = ground arith in
      rw (station_lines-mac lines (record no_station { mac = line }) read) good
  | inr bad ↦ absurd (ground arith)
]

-- A station read from a reply that is not empty has an address of the shape that `isMAC` accepts.
pub parse_station-is_mac :
    (p : Bytes) {s : Station} → p ≢ [] → parse_station p ≡ ok s → is_mac s.mac ≡ true
unfolding parse_station
parse_station-is_mac p {s} ne h = elim (Bool-cases (equal p (codes "FAIL\n"))) [
  | inl fail ↦ absurd (ground arith)
  | inr other ↦ station_reply-is_mac (scan_lines p) {t = s} (scan_lines-ne-nil p ne) (ground arith)
]
