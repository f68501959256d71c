-- ===== src/Hass/Vendors/Samsung5.antt =====
-- internal/hass/vendors.go, lines 1619 to 1684: prefixes of Samsung, each three bytes as one number.
use wifi_presence.Base.{ℕ, List, [], ◌∷◌}

unfoldable pub samsung_macs_5 : List ℕ
samsung_macs_5 =
    0xe432cb ∷ 0xe440e2 ∷ 0xe458b8 ∷ 0xe458e7 ∷ 0xe45d75 ∷ 0xe47cf9 ∷ 0xe47dbd ∷ 0xe492fb ∷ 0xe4b021
    ∷ 0xe4e0c5 ∷ 0xe4f3c4 ∷ 0xe4f8ef ∷ 0xe4faed ∷ 0xe8039a ∷ 0xe81132 ∷ 0xe83a12 ∷ 0xe84e84
    ∷ 0xe86dcb ∷ 0xe87f6b ∷ 0xe89309 ∷ 0xe8b4c8 ∷ 0xe8e5d6 ∷ 0xec107b ∷ 0xec7cb6 ∷ 0xecaa25
    ∷ 0xece09b ∷ 0xf008f1 ∷ 0xf03965 ∷ 0xf05a09 ∷ 0xf05b7b ∷ 0xf06bca ∷ 0xf0704f ∷ 0xf0728c
    ∷ 0xf08a76 ∷ 0xf0cd31 ∷ 0xf0e77e ∷ 0xf0ee10 ∷ 0xf0f564 ∷ 0xf40e22 ∷ 0xf4428f ∷ 0xf47190
    ∷ 0xf47b5e ∷ 0xf47def ∷ 0xf49f54 ∷ 0xf4c248 ∷ 0xf4d9fb ∷ 0xf4fefb ∷ 0xf83f51 ∷ 0xf877b8
    ∷ 0xf884f2 ∷ 0xf88f07 ∷ 0xf8d0bd ∷ 0xf8e61a ∷ 0xf8f1e6 ∷ 0xfa63e1 ∷ 0xfc039f ∷ 0xfc1910
    ∷ 0xfc4203 ∷ 0xfc643a ∷ 0xfc8f90 ∷ 0xfca13e ∷ 0xfca621 ∷ 0xfcaab6 ∷ 0xfcc734 ∷ 0xfcde90
    ∷ 0xfcf136 ∷ []
