-- ===== src/Hass/Vendors/Google.antt =====
-- internal/hass/vendors.go, lines 960 to 1017: prefixes of Google, each three bytes as one number.
use wifi_presence.Base.{ℕ, List, [], ◌∷◌}

unfoldable pub google_macs : List ℕ
google_macs =
    0x001a11 ∷ 0x00f620 ∷ 0x089e08 ∷ 0x08b4b1 ∷ 0x0cc413 ∷ 0x14223b ∷ 0x14c14e ∷ 0x1c53f9 ∷ 0x1cf29a
    ∷ 0x201f3b ∷ 0x20dfb9 ∷ 0x240588 ∷ 0x28bd89 ∷ 0x30fd38 ∷ 0x388b59 ∷ 0x3c286d ∷ 0x3c5ab4
    ∷ 0x3c8d20 ∷ 0x44070b ∷ 0x44bb3b ∷ 0x48d6d5 ∷ 0x546009 ∷ 0x582429 ∷ 0x58cb52 ∷ 0x60b76e
    ∷ 0x703acb ∷ 0x7c2ebd ∷ 0x7cd95c ∷ 0x883d24 ∷ 0x88541f ∷ 0x900cc8 ∷ 0x9495a0 ∷ 0x94eb2c
    ∷ 0x98d293 ∷ 0xa47733 ∷ 0xac6784 ∷ 0xb02a43 ∷ 0xb06a41 ∷ 0xb0e4d5 ∷ 0xcca7c1 ∷ 0xccf411
    ∷ 0xd4f547 ∷ 0xd86c63 ∷ 0xd88c79 ∷ 0xd8eb46 ∷ 0xdaa119 ∷ 0xdce55b ∷ 0xe45e1b ∷ 0xe4f042
    ∷ 0xf05c77 ∷ 0xf072ea ∷ 0xf0ef86 ∷ 0xf40304 ∷ 0xf4f5d8 ∷ 0xf4f5e8 ∷ 0xf80ff9 ∷ 0xf81a2b
    ∷ 0xf88fca ∷ []
