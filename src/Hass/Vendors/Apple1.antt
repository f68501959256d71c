-- ===== src/Hass/Vendors/Apple1.antt =====
-- internal/hass/vendors.go, lines 26 to 175: prefixes of Apple, each three bytes as one number.
use wifi_presence.Base.{ℕ, List, [], ◌∷◌}

unfoldable pub apple_macs_1 : List ℕ
apple_macs_1 =
    0x000393 ∷ 0x000502 ∷ 0x000a27 ∷ 0x000a95 ∷ 0x000d93 ∷ 0x0010fa ∷ 0x001124 ∷ 0x001451 ∷ 0x0016cb
    ∷ 0x0017f2 ∷ 0x0019e3 ∷ 0x001b63 ∷ 0x001cb3 ∷ 0x001d4f ∷ 0x001e52 ∷ 0x001ec2 ∷ 0x001f5b
    ∷ 0x001ff3 ∷ 0x0021e9 ∷ 0x002241 ∷ 0x002312 ∷ 0x002332 ∷ 0x00236c ∷ 0x0023df ∷ 0x002436
    ∷ 0x002500 ∷ 0x00254b ∷ 0x0025bc ∷ 0x002608 ∷ 0x00264a ∷ 0x0026b0 ∷ 0x0026bb ∷ 0x003065
    ∷ 0x003ee1 ∷ 0x0050e4 ∷ 0x0056cd ∷ 0x005b94 ∷ 0x006171 ∷ 0x006d52 ∷ 0x007d60 ∷ 0x008865
    ∷ 0x008a76 ∷ 0x00a040 ∷ 0x00b362 ∷ 0x00c610 ∷ 0x00cdfe ∷ 0x00db70 ∷ 0x00f39f ∷ 0x00f4b9
    ∷ 0x00f76f ∷ 0x040cce ∷ 0x041552 ∷ 0x041e64 ∷ 0x042665 ∷ 0x04489a ∷ 0x044bed ∷ 0x0452f3
    ∷ 0x045453 ∷ 0x046865 ∷ 0x0469f8 ∷ 0x047295 ∷ 0x0499b9 ∷ 0x04d3cf ∷ 0x04db56 ∷ 0x04e536
    ∷ 0x04f13e ∷ 0x04f7e4 ∷ 0x080007 ∷ 0x082cb6 ∷ 0x086698 ∷ 0x086d41 ∷ 0x087045 ∷ 0x087402
    ∷ 0x0887c7 ∷ 0x088edc ∷ 0x08c729 ∷ 0x08e689 ∷ 0x08f4ab ∷ 0x08f69c ∷ 0x08f8bc ∷ 0x08ff44
    ∷ 0x0c1539 ∷ 0x0c19f8 ∷ 0x0c3021 ∷ 0x0c3b50 ∷ 0x0c3e9f ∷ 0x0c4de9 ∷ 0x0c5101 ∷ 0x0c74c2
    ∷ 0x0c771a ∷ 0x0cbc9f ∷ 0x0cd746 ∷ 0x0ce441 ∷ 0x100020 ∷ 0x101c0c ∷ 0x102959 ∷ 0x103025
    ∷ 0x1040f3 ∷ 0x10417f ∷ 0x1093e9 ∷ 0x1094bb ∷ 0x109add ∷ 0x10cee9 ∷ 0x10ddb1 ∷ 0x14109f
    ∷ 0x14205e ∷ 0x145a05 ∷ 0x1460cb ∷ 0x147dda ∷ 0x14876a ∷ 0x1488e6 ∷ 0x148fc6 ∷ 0x1495ce
    ∷ 0x149877 ∷ 0x1499e2 ∷ 0x149d99 ∷ 0x14bd61 ∷ 0x14c213 ∷ 0x14c88b ∷ 0x14d00d ∷ 0x14d19e
    ∷ 0x182032 ∷ 0x183451 ∷ 0x183eef ∷ 0x1855e3 ∷ 0x1856c3 ∷ 0x186590 ∷ 0x187eb9 ∷ 0x18810e
    ∷ 0x189efc ∷ 0x18af61 ∷ 0x18af8f ∷ 0x18e7f4 ∷ 0x18ee69 ∷ 0x18f1d8 ∷ 0x18f643 ∷ 0x1c1ac0
    ∷ 0x1c36bb ∷ 0x1c5cf2 ∷ 0x1c9148 ∷ 0x1c9180 ∷ 0x1c9e46 ∷ 0x1caba7 ∷ 0x1cb3c9 ∷ 0x1ce62b
    ∷ 0x2032c6 ∷ 0x2037a5 ∷ 0x203cae ∷ 0x206980 ∷ 0x20768f ∷ []
