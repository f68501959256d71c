-- ===== src/Hostapd/Status/Ssid.antt =====
-- internal/hostapd/status.go, `decodeSSID`. Text is bytes: the runes that are written are ASCII.
pub mod Encodes
use wifi_presence.Base.{
  ℕ, zero, suc, ◌+◌, ◌*◌, Option, none, some, [], ◌∷◌, ◌++◌, ◌==◌, if◌then◌else◌, Bytes, codes,
  length,
}
use wifi_presence.Base.Errors.{Result, ok, err, wrapped, unexpected_eof, invalid_byte}
use wifi_presence.Strconv.Hex.{hex_value}

-- `io.Copy(&s, hex.NewDecoder(io.LimitReader(r, 2)))`: the bytes that are written, and what is left to
-- read. At the end of the input nothing is written and no error is returned.
unfoldable pub copy_hex : Bytes → Result (Bytes × Bytes)
unfolding hex_value
copy_hex [] = ok ([], [])
copy_hex (a ∷ []) = elim (hex_value a) [ none ↦ err (invalid_byte a) | some _ ↦ err unexpected_eof ]
copy_hex (a ∷ b ∷ r) = elim (hex_value a) [
  | none ↦ err (invalid_byte a)
  | some x ↦ elim (hex_value b) [ none ↦ err (invalid_byte b) | some y ↦ ok ((x * 16 + y) ∷ [], r) ]
]

-- The `switch` on the control character, without its case 'x'.
unfoldable pub control_char : ℕ → ℕ
control_char c =
    if c == b'e'
    then 27
    else if c == b'n'
    then 10
    else if c == b'r'
    then 13
    else if c == b't'
    then 9
    else c

-- What follows a backslash.
unfoldable pub read_escape : Bytes → Result (Bytes × Bytes)
unfolding copy_hex control_char
read_escape [] = err (wrapped (codes "dangling escape") unexpected_eof)
read_escape (c ∷ r) = if c == b'x' then copy_hex r else ok (control_char c ∷ [], r)

-- The loop, on fuel: the reader, and the text built so far. `none` means that the fuel ran out.
unfoldable pub decode_loop : ℕ → Bytes → Bytes → Option (Result Bytes)
unfolding read_escape
decode_loop zero r s = none
decode_loop (suc fuel) [] s = some (ok s)
decode_loop (suc fuel) (c ∷ r) s =
    let plain = decode_loop fuel r (s ++ c ∷ []) in
    let escaped : Option (Result Bytes) = elim (read_escape r) [
      | err e ↦ some (err e)
      | ok (out, r') ↦ decode_loop fuel r' (s ++ out)
    ] in
    if c == b'\\' then escaped else plain

unfoldable pub finished : Option (Result Bytes) → Result Bytes
finished none = err unexpected_eof
finished (some r) = r

-- `decodeSSID`: every round reads a byte, so the length is enough fuel (`decode_loop-ne-none`).
unfoldable pub decode_ssid : Bytes → Result Bytes
unfolding decode_loop finished
decode_ssid v = finished (decode_loop (suc (length v)) v [])
