-- ===== src/Hostapd/Mac.antt =====
-- internal/hostapd/mac.go: the shape of a MAC address in hostapd's messages.
pub mod Decode
use wifi_presence.Base.{
  ℕ, zero, suc, ◌+◌, ◌*◌, Option-cases, inl, inr, if◌then◌else◌, ◌≡◌, Bool, true, false, ◌&&◌, ◌||◌,
  List, [], ◌∷◌, ◌==◌, leb, arith, Bytes, remove_first, length, Option, none, some, ◌<◌, All, sym,
  refl,
}
use wifi_presence.Base.Errors.{Result, ok}
use wifi_presence.Strconv.Hex.{hex_value, decode_hex, decode_pair, upper_digit}
use wifi_presence.Presence.Mac.{Mac, IsMac, decode, of_bytes, to_string}
use wifi_presence.Presence.Mac.RoundTrip.{decode-IsMac}

-- The character class `[0-9A-Fa-f]`.
unfoldable pub is_hex : ℕ → Bool
is_hex c = (leb b'0' c && leb c b'9') || (leb b'A' c && leb c b'F') || (leb b'a' c && leb c b'f')

-- `([0-9A-Fa-f]{2}:){n}([0-9A-Fa-f]{2})$`
unfoldable pub matches_pairs : ℕ → Bytes → Bool
unfolding is_hex
matches_pairs zero (a ∷ b ∷ []) = is_hex a && is_hex b
matches_pairs (suc n) (a ∷ b ∷ c ∷ s) = is_hex a && is_hex b && c == b':' && matches_pairs n s
matches_pairs _ _ = false

-- `macLength`.
abbrev pub mac_length : ℕ
mac_length = 2 * 6 + 5

-- `isMAC`: `macRegexp` matches the whole text.
unfoldable pub is_mac : Bytes → Bool
unfolding matches_pairs
is_mac = matches_pairs 5
