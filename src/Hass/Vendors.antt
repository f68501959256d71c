-- ===== src/Hass/Vendors.antt =====
-- internal/hass/vendors.go: the vendor of an address, by its first three bytes.
mod Apple1
mod Apple2
mod Apple3
mod Apple4
mod Apple5
mod Apple6
mod Apple7
mod Google
mod Samsung1
mod Samsung2
mod Samsung3
mod Samsung4
mod Samsung5
use wifi_presence.Base.{
  ℕ, ◌+◌, ◌*◌, Bool, true, false, ◌||◌, List, [], ◌∷◌, ◌++◌, ◌==◌, if◌then◌else◌, Bytes, codes,
  remove_first,
}
use wifi_presence.Base.Errors.{Result, ok, err}
use wifi_presence.Strconv.Hex.{decode_hex}
use wifi_presence.Hass.Vendors.Apple1.{apple_macs_1}
use wifi_presence.Hass.Vendors.Apple2.{apple_macs_2}
use wifi_presence.Hass.Vendors.Apple3.{apple_macs_3}
use wifi_presence.Hass.Vendors.Apple4.{apple_macs_4}
use wifi_presence.Hass.Vendors.Apple5.{apple_macs_5}
use wifi_presence.Hass.Vendors.Apple6.{apple_macs_6}
use wifi_presence.Hass.Vendors.Apple7.{apple_macs_7}
use wifi_presence.Hass.Vendors.Google.{google_macs}
use wifi_presence.Hass.Vendors.Samsung1.{samsung_macs_1}
use wifi_presence.Hass.Vendors.Samsung2.{samsung_macs_2}
use wifi_presence.Hass.Vendors.Samsung3.{samsung_macs_3}
use wifi_presence.Hass.Vendors.Samsung4.{samsung_macs_4}
use wifi_presence.Hass.Vendors.Samsung5.{samsung_macs_5}

abbrev pub vendor_apple : Bytes
vendor_apple = codes "Apple"

abbrev pub vendor_google : Bytes
vendor_google = codes "Google"

abbrev pub vendor_samsung : Bytes
vendor_samsung = codes "Samsung"

unfoldable pub elem : ℕ → List ℕ → Bool
elem k [] = false
elem k (x ∷ xs) = k == x || elem k xs

apple_macs : List ℕ
unfolding apple_macs_1 apple_macs_2 apple_macs_3 apple_macs_4 apple_macs_5 apple_macs_6 apple_macs_7
apple_macs =
    apple_macs_1 ++ apple_macs_2 ++ apple_macs_3 ++ apple_macs_4 ++ apple_macs_5 ++ apple_macs_6
    ++ apple_macs_7

samsung_macs : List ℕ
unfolding samsung_macs_1 samsung_macs_2 samsung_macs_3 samsung_macs_4 samsung_macs_5
samsung_macs =
    samsung_macs_1 ++ samsung_macs_2 ++ samsung_macs_3 ++ samsung_macs_4 ++ samsung_macs_5

-- `vendorMACs[prefix]`: the empty text where the map has no such key.
unfoldable pub vendor_macs : ℕ → Bytes
unfolding elem apple_macs google_macs samsung_macs
vendor_macs prefix =
    if elem prefix apple_macs
    then vendor_apple
    else if elem prefix google_macs
    then vendor_google
    else if elem prefix samsung_macs
    then vendor_samsung
    else []

-- `len(h) < 3`, and the key of the first three bytes.
unfoldable pub vendor_of_bytes : Bytes → Bytes
unfolding vendor_macs
vendor_of_bytes (a ∷ b ∷ c ∷ h) = vendor_macs (a * 65536 + b * 256 + c)
vendor_of_bytes h = []

-- `VendorByMAC`.
unfoldable pub vendor_by_mac : Bytes → Bytes
unfolding decode_hex remove_first vendor_of_bytes
vendor_by_mac mac = elim (decode_hex (remove_first 5 b':' mac)) [
  | err e ↦ []
  | ok h ↦ vendor_of_bytes h
]
