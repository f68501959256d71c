-- ===== src/Hostapd/Status.antt =====
-- internal/hostapd/status.go: the reply to STATUS.
pub mod Ssid
use wifi_presence.Base.{
  ℕ, suc, Bool, true, false, Option, none, some, List, [], ◌∷◌, if◌then◌else◌, Bytes, codes, equal,
  split_pair,
}
use wifi_presence.Base.Errors.{Result, ok, err, ◌>>=◌, invalid_line}
use wifi_presence.Base.Int.{ℤ, pos}
use wifi_presence.Strconv.Atoi.{atoi}
use wifi_presence.Strconv.Lines.{scan_lines}
use wifi_presence.Hostapd.Status.Ssid.{decode_ssid}

-- `type Status struct`.
pub record Status : Type 0 where
  pub state : Bytes
  pub channel : ℤ
  pub max_tx_power : ℤ
  pub ssid : Bytes
  pub bssid : Bytes

-- The zero value.
abbrev pub no_status : Status
no_status = record { state = []; channel = pos 0; max_tx_power = pos 0; ssid = []; bssid = [] }

-- The `switch key` of `Status.parse`.
unfoldable pub status_field : Bytes → Bytes → Status → Result Status
status_field key val s =
    if equal key (codes "state")
    then ok (record s { state = val })
    else if equal key (codes "channel")
    then atoi val >>= (λ n. ok (record s { channel = n }))
    else if equal key (codes "max_txpower")
    then atoi val >>= (λ n. ok (record s { max_tx_power = n }))
    else if equal key (codes "ssid[0]")
    then decode_ssid val >>= (λ v. ok (record s { ssid = v }))
    else if equal key (codes "bssid[0]")
    then ok (record s { bssid = val })
    else ok s

-- One round of the scanning loop.
unfoldable pub status_line : Bytes → Status → Result Status
unfolding status_field
status_line line s = elim (split_pair b'=' line) [
  | none ↦ err (invalid_line line)
  | some (key, val) ↦ status_field key val s
]

unfoldable pub status_lines : List Bytes → Status → Result Status
unfolding status_line
status_lines [] s = ok s
status_lines (line ∷ lines) s = status_line line s >>= status_lines lines

-- `Status.parse`, on the zero value that `ctrl.status` passes. Where an error is returned the callers
-- drop what was assigned before it.
unfoldable pub parse_status : Bytes → Result Status
unfolding status_lines scan_lines
parse_status p = status_lines (scan_lines p) no_status
