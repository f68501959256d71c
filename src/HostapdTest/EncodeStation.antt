-- ===== src/HostapdTest/EncodeStation.antt =====
-- The parser of STA-FIRST and STA-NEXT reads what the fake encodes.
use mathlib.Core.List.{append_assoc}
use wifi_presence.Base.{
  has_prefix, ℕ, zero, suc, ◌≤◌, ◌≡◌, ◌≢◌, refl, sym, arith, Bool, true, false, [], ◌∷◌, ◌++◌,
  Bytes, codes, equal, contains, split_pair, if◌then◌else◌, All-append,
}
use wifi_presence.Base.Errors.{ok}
use wifi_presence.Base.Int.{ℤ}
use wifi_presence.Strconv.Itoa.{itoa, atoi-itoa}
use wifi_presence.Strconv.Lines.{scan_lines}
use wifi_presence.Strconv.Scan.{IsPlain, scan_lines-line, scan_lines-last}
use wifi_presence.Hostapd.Mac.{is_mac, is_hex, matches_pairs}
use wifi_presence.Hostapd.Station.{
  Station, no_station, station_line, station_lines, station_reply, parse_station,
}
use wifi_presence.Hostapd.Ctrl.{is_unknown}
use wifi_presence.HostapdTest.{StationResp, line, encode_station}
use wifi_presence.HostapdTest.Encode.{FitsInt, itoa-IsPlain}

-- What the client is to read of a station.
abbrev pub station_of : StationResp → Station
station_of r = record no_station { mac = r.mac; associated = r.assoc; signal = r.signal }

-- A station that the fake can send.
pub record IsStation (r : StationResp) : Type 0 where
  pub mac : is_mac r.mac ≡ true
  pub signal : FitsInt r.signal

is_hex-lt : (c : ℕ) → is_hex c ≡ true → 32 ≤ c
unfolding is_hex
is_hex-lt c h = ground arith

matches_pairs-IsPlain : (n : ℕ) (s : Bytes) → matches_pairs n s ≡ true → IsPlain s
unfolding matches_pairs
matches_pairs-IsPlain zero (a ∷ b ∷ []) h = ground (arith, is_hex-lt a, is_hex-lt b)
matches_pairs-IsPlain (suc n) (a ∷ b ∷ c ∷ s) h =
    ground (arith, is_hex-lt a, is_hex-lt b, matches_pairs-IsPlain n s)
matches_pairs-IsPlain _ _ h = absurd (ground arith)

pub is_mac-IsPlain : (s : Bytes) → is_mac s ≡ true → IsPlain s
unfolding is_mac
is_mac-IsPlain = matches_pairs-IsPlain 5

flags_line :
    (s : Station) → station_line (codes "flags=[ASSOC]") s ≡ ok (record s { associated = true })
unfolding station_line split_pair equal contains
flags_line s = refl

signal_line :
    (z : ℤ) (s : Station)
    → FitsInt z
    → station_line (codes "signal=" ++ itoa z) s ≡ ok (record s { signal = z })
unfolding station_line split_pair equal
signal_line z s (p, q) = rw (atoi-itoa z p q) refl

signal_lines :
    (z : ℤ) (s : Station)
    → FitsInt z
    → station_lines (scan_lines (codes "signal=" ++ itoa z)) s ≡ ok (record s { signal = z })
unfolding station_lines
signal_lines z s h =
    let plain : IsPlain (codes "signal=" ++ itoa z) =
      All-append _ (codes "signal=") (itoa z) (ground arith) (itoa-IsPlain z) in
    rw (scan_lines-last b's' (codes "ignal=" ++ itoa z) plain, signal_line z s h) refl

flags_lines :
    (assoc : Bool) (z : ℤ) (s : Station)
    → FitsInt z
    → s.associated ≡ false
    → station_lines
        (scan_lines
          ((if assoc then line (codes "flags=[ASSOC]") else []) ++ (codes "signal=" ++ itoa z)))
        s
      ≡ ok (record s { associated = assoc; signal = z })
unfolding station_lines
flags_lines false z s h e = rw (signal_lines z s h) (rw e refl)
flags_lines true z s h e =
    rw
      (
        scan_lines-line (codes "flags=[ASSOC]") (codes "signal=" ++ itoa z) (ground arith),
        flags_line s,
        signal_lines z (record s { associated = true }) h,
      )
      refl

-- No MAC starts like the reply "FAIL".
mac_not_fail : (s rest : Bytes) → is_mac s ≡ true → equal (s ++ rest) (codes "FAIL\n") ≡ false
unfolding is_mac matches_pairs equal
mac_not_fail (a ∷ b ∷ c ∷ s) rest h = ground arith
mac_not_fail _ rest h = absurd (ground arith)

-- Where the field `MAC` has the shape of a MAC and the signal has 64 bits, the parser of STA-FIRST and
-- STA-NEXT reads from the fake's reply what the fake was given.
pub parse_station-encode_station :
    (r : StationResp) → IsStation r → parse_station (encode_station r) ≡ ok (station_of r)
unfolding parse_station encode_station station_reply
parse_station-encode_station r h =
    let rest =
      (if r.assoc then line (codes "flags=[ASSOC]") else [])
      ++ (codes "signal=" ++ itoa r.signal) in
    rw
      (
        append_assoc r.mac (b'\n' ∷ []) rest,
        mac_not_fail r.mac (b'\n' ∷ rest) h.mac,
        sym (append_assoc r.mac (b'\n' ∷ []) rest),
        scan_lines-line r.mac rest (is_mac-IsPlain r.mac h.mac),
        h.mac,
        flags_lines r.assoc r.signal (record no_station { mac = r.mac }) h.signal refl,
      )
      refl

is_hex-ne : (c : ℕ) → is_hex c ≡ true → c ≢ b'U'
unfolding is_hex
is_hex-ne c h = ground arith

has_prefix-cons : (c d : ℕ) (s p : Bytes) → c ≢ d → has_prefix (c ∷ s) (d ∷ p) ≡ false
unfolding has_prefix
has_prefix-cons c d s p h = ground arith

is_mac-known : (s rest : Bytes) → is_mac s ≡ true → is_unknown ((s ++ b'\n' ∷ []) ++ rest) ≡ false
unfolding is_mac matches_pairs is_unknown
is_mac-known (a ∷ b ∷ c ∷ s) rest h =
    let hex : is_hex a ≡ true = ground arith in
    has_prefix-cons a b'U' (b ∷ c ∷ ((s ++ b'\n' ∷ []) ++ rest)) (codes "NKNOWN COMMAND")
      (is_hex-ne a hex)
is_mac-known [] rest h = absurd (ground arith)
is_mac-known (a ∷ []) rest h = absurd (ground arith)
is_mac-known (a ∷ b ∷ []) rest h = absurd (ground arith)

-- No reply of a station is the reply to an unknown command.
pub encode_station-known : (r : StationResp) → IsStation r → is_unknown (encode_station r) ≡ false
unfolding encode_station
encode_station-known r h = is_mac-known r.mac _ h.mac
