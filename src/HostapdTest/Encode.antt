-- ===== src/HostapdTest/Encode.antt =====
-- The parser of STATUS reads what the fake encodes.
use wifi_presence.Base.{
  ℕ, zero, suc, ◌/◌, ◌≤◌, ◌<◌, ◌≡◌, refl, ap, ◌∙◌, arith, [], ◌∷◌, ◌++◌, Bytes, codes, equal,
  split_pair, All-append, ltb, Bool-cases, inl, inr,
}
use wifi_presence.Base.Errors.{ok}
use wifi_presence.Base.Int.{ℤ, pos, negsuc, int64_half, pos_part, neg_part}
use wifi_presence.Strconv.Itoa.{digits, itoa, atoi-itoa}
use wifi_presence.Strconv.Lines.{scan_lines}
use wifi_presence.Strconv.Scan.{IsPlain, scan_lines-line, scan_lines-ended}
use wifi_presence.Hostapd.Status.{Status, no_status, status_line, status_lines, parse_status}
use wifi_presence.Hostapd.Status.Ssid.{decode_ssid}
use wifi_presence.Hostapd.Status.Ssid.Encodes.{Encodes, decode_ssid_iff}
use wifi_presence.HostapdTest.{StatusResp, line, encode_status}

digits-IsPlain : (fuel n : ℕ) → IsPlain (digits fuel n)
unfolding digits
digits-IsPlain zero n = tt
digits-IsPlain (suc fuel) n = elim (Bool-cases (ltb n 10)) [
  | inl one ↦ rw one (omega arith, tt)
  | inr more ↦
      rw more
        (All-append _ (digits fuel (n / 10)) _ (digits-IsPlain fuel (n / 10)) (omega arith, tt))
]

pub itoa-IsPlain : (z : ℤ) → IsPlain (itoa z)
unfolding itoa
itoa-IsPlain (pos n) = digits-IsPlain (suc n) n
itoa-IsPlain (negsuc n) = (omega arith, digits-IsPlain (suc (suc n)) (suc n))

abbrev pub FitsInt : ℤ → Type 0
FitsInt z = (pos_part z < int64_half) × (neg_part z ≤ int64_half)

-- A status that the fake can send: one line for each field, and numbers of 64 bits.
pub record IsStatus (r : StatusResp) : Type 0 where
  pub state : IsPlain r.state
  pub ssid : IsPlain r.ssid
  pub bssid : IsPlain r.bssid
  pub channel : FitsInt r.channel
  pub max_tx_power : FitsInt r.max_tx_power

state_line :
    (v : Bytes) (s : Status) → status_line (codes "state=" ++ v) s ≡ ok (record s { state = v })
unfolding status_line split_pair equal
state_line v s = refl

channel_line :
    (z : ℤ) (s : Status)
    → FitsInt z
    → status_line (codes "channel=" ++ itoa z) s ≡ ok (record s { channel = z })
unfolding status_line split_pair equal
channel_line z s (p, q) = rw (atoi-itoa z p q) refl

power_line :
    (z : ℤ) (s : Status)
    → FitsInt z
    → status_line (codes "max_txpower=" ++ itoa z) s ≡ ok (record s { max_tx_power = z })
unfolding status_line split_pair equal
power_line z s (p, q) = rw (atoi-itoa z p q) refl

ssid_line :
    (v text : Bytes) (s : Status)
    → decode_ssid v ≡ ok text
    → status_line (codes "ssid[0]=" ++ v) s ≡ ok (record s { ssid = text })
unfolding status_line split_pair equal
ssid_line v text s e = rw e refl

bssid_line :
    (v : Bytes) (s : Status) → status_line (codes "bssid[0]=" ++ v) s ≡ ok (record s { bssid = v })
unfolding status_line split_pair equal
bssid_line v s = refl

scan_lines-encode_status :
    (r : StatusResp)
    → IsStatus r
    → scan_lines (encode_status r)
      ≡ (codes "state=" ++ r.state)
        ∷ (codes "channel=" ++ itoa r.channel)
        ∷ (codes "max_txpower=" ++ itoa r.max_tx_power)
        ∷ (codes "ssid[0]=" ++ r.ssid)
        ∷ (codes "bssid[0]=" ++ r.bssid)
        ∷ []
unfolding encode_status
scan_lines-encode_status r h =
    let l1 = codes "state=" ++ r.state in
    let l2 = codes "channel=" ++ itoa r.channel in
    let l3 = codes "max_txpower=" ++ itoa r.max_tx_power in
    let l4 = codes "ssid[0]=" ++ r.ssid in
    let l5 = codes "bssid[0]=" ++ r.bssid in
    let p1 : IsPlain l1 = All-append _ (codes "state=") r.state (ground arith) h.state in
    let p2 : IsPlain l2 =
      All-append _ (codes "channel=") (itoa r.channel) (ground arith) (itoa-IsPlain r.channel) in
    let p3 : IsPlain l3 =
      All-append _ (codes "max_txpower=") (itoa r.max_tx_power) (ground arith)
        (itoa-IsPlain r.max_tx_power) in
    let p4 : IsPlain l4 = All-append _ (codes "ssid[0]=") r.ssid (ground arith) h.ssid in
    let p5 : IsPlain l5 = All-append _ (codes "bssid[0]=") r.bssid (ground arith) h.bssid in
    let r4 = line l4 ++ line l5 in
    let r3 = line l3 ++ r4 in
    let r2 = line l2 ++ r3 in
    scan_lines-line l1 r2 p1
    ∙ ap (λ t. l1 ∷ t)
        (scan_lines-line l2 r3 p2
          ∙ ap (λ t. l2 ∷ t)
              (scan_lines-line l3 r4 p3
                ∙ ap (λ t. l3 ∷ t)
                    (scan_lines-line l4 (line l5) p4 ∙ ap (λ t. l4 ∷ t) (scan_lines-ended l5 p5))))

-- Where every field is one line, the numbers have 64 bits, and the field `SSID` is an encoding of
-- `text`, the parser of STATUS reads from the fake's reply what the fake was given, and `text` as SSID.
pub parse_status-encode_status :
    (r : StatusResp) (text : Bytes)
    → IsStatus r
    → Encodes r.ssid text
    → parse_status (encode_status r)
      ≡ ok (record {
        state = r.state;
        channel = r.channel;
        max_tx_power = r.max_tx_power;
        ssid = text;
        bssid = r.bssid;
      })
unfolding parse_status status_lines
parse_status-encode_status r text h e =
    rw
      (
        scan_lines-encode_status r h,
        state_line r.state no_status,
        channel_line r.channel _ h.channel,
        power_line r.max_tx_power _ h.max_tx_power,
        ssid_line r.ssid text _ ((decode_ssid_iff r.ssid text).1 e),
        bssid_line r.bssid _,
      )
      refl
