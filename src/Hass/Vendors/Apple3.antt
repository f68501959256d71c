-- ===== src/Hass/Vendors/Apple3.antt =====
-- internal/hass/vendors.go, lines 326 to 475: prefixes of Apple, each three bytes as one number.
use wifi_presence.Base.{ℕ, List, [], ◌∷◌}

unfoldable pub apple_macs_3 : List ℕ
apple_macs_3 =
    0x4cab4f ∷ 0x4cb199 ∷ 0x4cb910 ∷ 0x501fc6 ∷ 0x503237 ∷ 0x507a55 ∷ 0x507ac5 ∷ 0x5082d5 ∷ 0x50a67f
    ∷ 0x50bc96 ∷ 0x50de06 ∷ 0x50ead6 ∷ 0x50ed3c ∷ 0x50f4eb ∷ 0x540910 ∷ 0x542696 ∷ 0x542b8d
    ∷ 0x5433cb ∷ 0x544e90 ∷ 0x5462e2 ∷ 0x54724f ∷ 0x549963 ∷ 0x549f13 ∷ 0x54ae27 ∷ 0x54e43a
    ∷ 0x54e61b ∷ 0x54eaa8 ∷ 0x580ad4 ∷ 0x581faa ∷ 0x58404e ∷ 0x5855ca ∷ 0x586b14 ∷ 0x587f57
    ∷ 0x58b035 ∷ 0x58d349 ∷ 0x58e28f ∷ 0x58e6ba ∷ 0x5c0947 ∷ 0x5c1dd9 ∷ 0x5c50d9 ∷ 0x5c5230
    ∷ 0x5c5948 ∷ 0x5c7017 ∷ 0x5c8730 ∷ 0x5c8d4e ∷ 0x5c95ae ∷ 0x5c969d ∷ 0x5c97f3 ∷ 0x5cadcf
    ∷ 0x5cf5da ∷ 0x5cf7e6 ∷ 0x5cf938 ∷ 0x600308 ∷ 0x6006e3 ∷ 0x6030d4 ∷ 0x60334b ∷ 0x606944
    ∷ 0x6070c0 ∷ 0x607ec9 ∷ 0x608373 ∷ 0x608b0e ∷ 0x608c4a ∷ 0x609217 ∷ 0x609316 ∷ 0x609ac1
    ∷ 0x60a37d ∷ 0x60bec4 ∷ 0x60c547 ∷ 0x60d9c7 ∷ 0x60f445 ∷ 0x60f81d ∷ 0x60facd ∷ 0x60fb42
    ∷ 0x60fec5 ∷ 0x640bd7 ∷ 0x64200c ∷ 0x645a36 ∷ 0x645aed ∷ 0x646d2f ∷ 0x647033 ∷ 0x6476ba
    ∷ 0x649abe ∷ 0x64a3cb ∷ 0x64a5c3 ∷ 0x64b0a6 ∷ 0x64b9e8 ∷ 0x64c753 ∷ 0x64d2c4 ∷ 0x64e682
    ∷ 0x680927 ∷ 0x682f67 ∷ 0x685b35 ∷ 0x68644b ∷ 0x68967b ∷ 0x689c70 ∷ 0x68a86d ∷ 0x68ab1e
    ∷ 0x68ae20 ∷ 0x68d93c ∷ 0x68dbca ∷ 0x68ef43 ∷ 0x68fb7e ∷ 0x68fef7 ∷ 0x6c19c0 ∷ 0x6c3e6d
    ∷ 0x6c4008 ∷ 0x6c4a85 ∷ 0x6c4d73 ∷ 0x6c709f ∷ 0x6c72e7 ∷ 0x6c8dc1 ∷ 0x6c94f8 ∷ 0x6c96cf
    ∷ 0x6cab31 ∷ 0x6cc26b ∷ 0x6ce85c ∷ 0x701124 ∷ 0x7014a6 ∷ 0x703c69 ∷ 0x703eac ∷ 0x70480f
    ∷ 0x705681 ∷ 0x70700d ∷ 0x7073cb ∷ 0x7081eb ∷ 0x70a2b3 ∷ 0x70cd60 ∷ 0x70dee2 ∷ 0x70e72c
    ∷ 0x70ea5a ∷ 0x70ece4 ∷ 0x70ef00 ∷ 0x70f087 ∷ 0x741bb2 ∷ 0x74428b ∷ 0x74650c ∷ 0x748114
    ∷ 0x748d08 ∷ 0x748f3c ∷ 0x749eaf ∷ 0x74b587 ∷ 0x74e1b6 ∷ 0x74e2f5 ∷ 0x78028b ∷ 0x7831c1
    ∷ 0x783a84 ∷ 0x784f43 ∷ 0x7864c0 ∷ 0x7867d7 ∷ 0x786c1c ∷ []
