-- ===== src/Hass/Vendors/Apple2.antt =====
-- internal/hass/vendors.go, lines 176 to 325: prefixes of Apple, each three bytes as one number.
use wifi_presence.Base.{ℕ, List, [], ◌∷◌}

unfoldable pub apple_macs_2 : List ℕ
apple_macs_2 =
    0x2078f0 ∷ 0x207d74 ∷ 0x209bcd ∷ 0x20a2e4 ∷ 0x20ab37 ∷ 0x20c9d0 ∷ 0x20e2a8 ∷ 0x20e874 ∷ 0x20ee28
    ∷ 0x241b7a ∷ 0x241eeb ∷ 0x24240e ∷ 0x245ba7 ∷ 0x245e48 ∷ 0x24a074 ∷ 0x24a2e1 ∷ 0x24ab81
    ∷ 0x24d0df ∷ 0x24e314 ∷ 0x24f094 ∷ 0x24f677 ∷ 0x280b5c ∷ 0x283737 ∷ 0x285aeb ∷ 0x286ab8
    ∷ 0x286aba ∷ 0x2877f1 ∷ 0x28a02b ∷ 0x28c538 ∷ 0x28c709 ∷ 0x28cfda ∷ 0x28cfe9 ∷ 0x28e02c
    ∷ 0x28e14c ∷ 0x28e7cf ∷ 0x28ec95 ∷ 0x28ed6a ∷ 0x28f033 ∷ 0x28f076 ∷ 0x28ff3c ∷ 0x2c1f23
    ∷ 0x2c200b ∷ 0x2c3361 ∷ 0x2c61f6 ∷ 0x2cb43a ∷ 0x2cbc87 ∷ 0x2cbe08 ∷ 0x2cf0a2 ∷ 0x2cf0ee
    ∷ 0x3010e4 ∷ 0x3035ad ∷ 0x305714 ∷ 0x30636b ∷ 0x309048 ∷ 0x3090ab ∷ 0x30d9d9 ∷ 0x30f7c5
    ∷ 0x3408bc ∷ 0x341298 ∷ 0x34159e ∷ 0x34318f ∷ 0x34363b ∷ 0x344262 ∷ 0x3451c9 ∷ 0x347c25
    ∷ 0x34a395 ∷ 0x34a8eb ∷ 0x34ab37 ∷ 0x34c059 ∷ 0x34e2fd ∷ 0x34fd6a ∷ 0x380f4a ∷ 0x38484c
    ∷ 0x38539c ∷ 0x3865b2 ∷ 0x3866f0 ∷ 0x3871de ∷ 0x38892c ∷ 0x38b54d ∷ 0x38c986 ∷ 0x38cada
    ∷ 0x38ec0d ∷ 0x38f9d3 ∷ 0x3c0630 ∷ 0x3c0754 ∷ 0x3c15c2 ∷ 0x3c22fb ∷ 0x3c2ef9 ∷ 0x3c2eff
    ∷ 0x3c4dbe ∷ 0x3c7d0a ∷ 0x3ca6f6 ∷ 0x3cab8e ∷ 0x3cbf60 ∷ 0x3ccd36 ∷ 0x3cd0f8 ∷ 0x3ce072
    ∷ 0x402619 ∷ 0x403004 ∷ 0x40331a ∷ 0x403cfc ∷ 0x404d7f ∷ 0x406c8f ∷ 0x4070f5 ∷ 0x40831d
    ∷ 0x4098ad ∷ 0x409c28 ∷ 0x40a6d9 ∷ 0x40b395 ∷ 0x40bc60 ∷ 0x40c711 ∷ 0x40cbc0 ∷ 0x40d32d
    ∷ 0x40e64b ∷ 0x40f946 ∷ 0x440010 ∷ 0x4418fd ∷ 0x442a60 ∷ 0x443583 ∷ 0x444adb ∷ 0x444c0c
    ∷ 0x4490bb ∷ 0x44a8fc ∷ 0x44c65d ∷ 0x44d884 ∷ 0x44e66e ∷ 0x44f09e ∷ 0x44f21b ∷ 0x44fb42
    ∷ 0x48262c ∷ 0x483b38 ∷ 0x48437c ∷ 0x484baa ∷ 0x4860bc ∷ 0x48746e ∷ 0x48a195 ∷ 0x48a91c
    ∷ 0x48b8a3 ∷ 0x48bf6b ∷ 0x48d705 ∷ 0x48e9f1 ∷ 0x4c20b8 ∷ 0x4c3275 ∷ 0x4c569d ∷ 0x4c57ca
    ∷ 0x4c6be8 ∷ 0x4c74bf ∷ 0x4c7c5f ∷ 0x4c7cd9 ∷ 0x4c8d79 ∷ []
