-- ===== src/Hass/Vendors/Samsung4.antt =====
-- internal/hass/vendors.go, lines 1469 to 1618: prefixes of Samsung, each three bytes as one number.
use wifi_presence.Base.{ℕ, List, [], ◌∷◌}

unfoldable pub samsung_macs_4 : List ℕ
samsung_macs_4 =
    0xa49a58 ∷ 0xa4c69a ∷ 0xa4d990 ∷ 0xa4ebd3 ∷ 0xa80600 ∷ 0xa816d0 ∷ 0xa82bb9 ∷ 0xa830bc ∷ 0xa8346a
    ∷ 0xa8515b ∷ 0xa87650 ∷ 0xa87c01 ∷ 0xa88195 ∷ 0xa887b3 ∷ 0xa89fba ∷ 0xa8f274 ∷ 0xac1e92
    ∷ 0xac3613 ∷ 0xac5a14 ∷ 0xac6c90 ∷ 0xacafb9 ∷ 0xacc33a ∷ 0xacee9e ∷ 0xb047bf ∷ 0xb06fe0
    ∷ 0xb0c4e7 ∷ 0xb0c559 ∷ 0xb0d09c ∷ 0xb0df3a ∷ 0xb0ec71 ∷ 0xb41a1d ∷ 0xb43a28 ∷ 0xb46293
    ∷ 0xb47443 ∷ 0xb49d02 ∷ 0xb4bff6 ∷ 0xb4ce40 ∷ 0xb4ef39 ∷ 0xb857d8 ∷ 0xb85a73 ∷ 0xb85e7b
    ∷ 0xb86ce8 ∷ 0xb8bbaf ∷ 0xb8bc5b ∷ 0xb8c68e ∷ 0xb8d9ce ∷ 0xbc1485 ∷ 0xbc20a4 ∷ 0xbc4486
    ∷ 0xbc4760 ∷ 0xbc5451 ∷ 0xbc72b1 ∷ 0xbc765e ∷ 0xbc79ad ∷ 0xbc7abf ∷ 0xbc7e8b ∷ 0xbc851f
    ∷ 0xbca58b ∷ 0xbcb1f3 ∷ 0xbcd11f ∷ 0xbce63f ∷ 0xc01173 ∷ 0xc0174d ∷ 0xc0238d ∷ 0xc03d03
    ∷ 0xc048e6 ∷ 0xc06599 ∷ 0xc087eb ∷ 0xc08997 ∷ 0xc0bdc8 ∷ 0xc0d2dd ∷ 0xc0d3c0 ∷ 0xc0dcda
    ∷ 0xc418e9 ∷ 0xc44202 ∷ 0xc45006 ∷ 0xc4576e ∷ 0xc45d83 ∷ 0xc462ea ∷ 0xc4731e ∷ 0xc488e5
    ∷ 0xc493d9 ∷ 0xc4ae12 ∷ 0xc81479 ∷ 0xc819f7 ∷ 0xc83870 ∷ 0xc8418a ∷ 0xc85142 ∷ 0xc87e75
    ∷ 0xc8a823 ∷ 0xc8bd4d ∷ 0xc8bd69 ∷ 0xc8d7b0 ∷ 0xcc051b ∷ 0xcc07ab ∷ 0xcc2119 ∷ 0xcc464e
    ∷ 0xcc6ea4 ∷ 0xccb11a ∷ 0xccf9e8 ∷ 0xccfe3c ∷ 0xd003df ∷ 0xd0176a ∷ 0xd01b49 ∷ 0xd03169
    ∷ 0xd059e4 ∷ 0xd0667b ∷ 0xd07fa0 ∷ 0xd087e2 ∷ 0xd0b128 ∷ 0xd0c1b1 ∷ 0xd0c24e ∷ 0xd0d003
    ∷ 0xd0dfc7 ∷ 0xd0fccc ∷ 0xd411a3 ∷ 0xd47ae2 ∷ 0xd487d8 ∷ 0xd48890 ∷ 0xd48a39 ∷ 0xd49dc0
    ∷ 0xd4ae05 ∷ 0xd4e6b7 ∷ 0xd4e8b2 ∷ 0xd80831 ∷ 0xd80b9a ∷ 0xd831cf ∷ 0xd85575 ∷ 0xd857ef
    ∷ 0xd85b2a ∷ 0xd868c3 ∷ 0xd890e8 ∷ 0xd8a35c ∷ 0xd8c4e9 ∷ 0xd8e0e1 ∷ 0xdc44b6 ∷ 0xdc6672
    ∷ 0xdc74a8 ∷ 0xdc8983 ∷ 0xdccf96 ∷ 0xdcdce2 ∷ 0xdcf756 ∷ 0xe09971 ∷ 0xe09d13 ∷ 0xe0aa96
    ∷ 0xe0c377 ∷ 0xe0cbee ∷ 0xe0d083 ∷ 0xe0db10 ∷ 0xe4121d ∷ []
