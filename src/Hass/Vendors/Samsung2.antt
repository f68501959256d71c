-- ===== src/Hass/Vendors/Samsung2.antt =====
-- internal/hass/vendors.go, lines 1169 to 1318: prefixes of Samsung, each three bytes as one number.
use wifi_presence.Base.{ℕ, List, [], ◌∷◌}

unfoldable pub samsung_macs_2 : List ℕ
samsung_macs_2 =
    0x245ab5 ∷ 0x2468b0 ∷ 0x24920e ∷ 0x24c696 ∷ 0x24dbed ∷ 0x24f5aa ∷ 0x24fce5 ∷ 0x2802d8 ∷ 0x2827bf
    ∷ 0x28395e ∷ 0x288335 ∷ 0x28987b ∷ 0x28bab5 ∷ 0x28cc01 ∷ 0x2c15bf ∷ 0x2c4053 ∷ 0x2c4401
    ∷ 0x2cae2b ∷ 0x2cbaba ∷ 0x301966 ∷ 0x306a85 ∷ 0x307467 ∷ 0x3096fb ∷ 0x30c7ae ∷ 0x30cbf8
    ∷ 0x30cda7 ∷ 0x30d587 ∷ 0x30d6c9 ∷ 0x34145f ∷ 0x342d0d ∷ 0x343111 ∷ 0x3482c5 ∷ 0x348a7b
    ∷ 0x34aa8b ∷ 0x34be00 ∷ 0x34c3ac ∷ 0x380195 ∷ 0x380a94 ∷ 0x380b40 ∷ 0x3816d1 ∷ 0x382dd1
    ∷ 0x382de8 ∷ 0x3868a4 ∷ 0x386a77 ∷ 0x389496 ∷ 0x389af6 ∷ 0x38d40b ∷ 0x38ece4 ∷ 0x3c0518
    ∷ 0x3c195e ∷ 0x3c20f6 ∷ 0x3c576c ∷ 0x3c5a37 ∷ 0x3c6200 ∷ 0x3c8bfe ∷ 0x3ca10d ∷ 0x3cbbfd
    ∷ 0x3cdcbc ∷ 0x3cf7a4 ∷ 0x40163b ∷ 0x40d3ae ∷ 0x444e1a ∷ 0x445ce9 ∷ 0x446d6c ∷ 0x44783e
    ∷ 0x448f17 ∷ 0x44f459 ∷ 0x48137e ∷ 0x4827ea ∷ 0x4844f7 ∷ 0x4849c7 ∷ 0x485169 ∷ 0x48794d
    ∷ 0x489dd1 ∷ 0x48c796 ∷ 0x4c3c16 ∷ 0x4ca56d ∷ 0x4cbca5 ∷ 0x4cc95e ∷ 0x4cdd31 ∷ 0x5001bb
    ∷ 0x503275 ∷ 0x503da1 ∷ 0x5049b0 ∷ 0x5050a4 ∷ 0x5056bf ∷ 0x507705 ∷ 0x508569 ∷ 0x5092b9
    ∷ 0x509ea7 ∷ 0x50a4c8 ∷ 0x50b7c3 ∷ 0x50c8e5 ∷ 0x50f0d3 ∷ 0x50f520 ∷ 0x50fc9f ∷ 0x54219d
    ∷ 0x543ad6 ∷ 0x5440ad ∷ 0x5444a3 ∷ 0x5492be ∷ 0x549b12 ∷ 0x54b802 ∷ 0x54bd79 ∷ 0x54d17d
    ∷ 0x54f201 ∷ 0x54fa3e ∷ 0x54fcf0 ∷ 0x58a639 ∷ 0x58b10f ∷ 0x58c38b ∷ 0x58c5cb ∷ 0x5c10c5
    ∷ 0x5c2e59 ∷ 0x5c3c27 ∷ 0x5c497d ∷ 0x5c5181 ∷ 0x5c865c ∷ 0x5c9960 ∷ 0x5cc1d7 ∷ 0x5ccb99
    ∷ 0x5ce8eb ∷ 0x5cf6dc ∷ 0x603aaf ∷ 0x60684e ∷ 0x606bbd ∷ 0x6077e2 ∷ 0x608e08 ∷ 0x608f5c
    ∷ 0x60a10a ∷ 0x60a4d0 ∷ 0x60af6d ∷ 0x60c5ad ∷ 0x60d0a9 ∷ 0x64037f ∷ 0x6407f6 ∷ 0x641cae
    ∷ 0x641cb0 ∷ 0x646cb2 ∷ 0x647791 ∷ 0x647bce ∷ 0x6489f1 ∷ 0x64b310 ∷ 0x64b853 ∷ 0x64e7d8
    ∷ 0x680571 ∷ 0x682737 ∷ 0x684898 ∷ 0x685acf ∷ 0x6872c3 ∷ []
