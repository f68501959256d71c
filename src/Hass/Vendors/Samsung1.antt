-- ===== src/Hass/Vendors/Samsung1.antt =====
-- internal/hass/vendors.go, lines 1019 to 1168: prefixes of Samsung, each three bytes as one number.
use wifi_presence.Base.{ℕ, List, [], ◌∷◌}

unfoldable pub samsung_macs_1 : List ℕ
samsung_macs_1 =
    0x0000f0 ∷ 0x0007ab ∷ 0x000de5 ∷ 0x001247 ∷ 0x0012fb ∷ 0x001377 ∷ 0x001599 ∷ 0x0015b9 ∷ 0x001632
    ∷ 0x00166b ∷ 0x00166c ∷ 0x0016db ∷ 0x0017c9 ∷ 0x0017d5 ∷ 0x0018af ∷ 0x001a8a ∷ 0x001b98
    ∷ 0x001c43 ∷ 0x001d25 ∷ 0x001df6 ∷ 0x001e7d ∷ 0x001ee1 ∷ 0x001ee2 ∷ 0x001fcc ∷ 0x001fcd
    ∷ 0x00214c ∷ 0x0021d1 ∷ 0x0021d2 ∷ 0x002339 ∷ 0x00233a ∷ 0x002399 ∷ 0x0023d6 ∷ 0x0023d7
    ∷ 0x002454 ∷ 0x002490 ∷ 0x002491 ∷ 0x0024e9 ∷ 0x002538 ∷ 0x002566 ∷ 0x002567 ∷ 0x00265d
    ∷ 0x00265f ∷ 0x006f64 ∷ 0x007204 ∷ 0x0073e0 ∷ 0x007c2d ∷ 0x008701 ∷ 0x00b5d0 ∷ 0x00bf61
    ∷ 0x00c3f4 ∷ 0x00e3b2 ∷ 0x00f46f ∷ 0x00fa21 ∷ 0x04180f ∷ 0x041bba ∷ 0x04b1a1 ∷ 0x04b429
    ∷ 0x04b9e3 ∷ 0x04ba8d ∷ 0x04bdbf ∷ 0x04fe31 ∷ 0x0808c2 ∷ 0x08152f ∷ 0x0821ef ∷ 0x08373d
    ∷ 0x083d88 ∷ 0x087808 ∷ 0x088c2c ∷ 0x08aed6 ∷ 0x08bfa0 ∷ 0x08d42b ∷ 0x08eca9 ∷ 0x08ee8b
    ∷ 0x08fc88 ∷ 0x08fd0e ∷ 0x0c02bd ∷ 0x0c1420 ∷ 0x0c2fb0 ∷ 0x0c715d ∷ 0x0c8910 ∷ 0x0c8dca
    ∷ 0x0ca8a7 ∷ 0x0cb319 ∷ 0x0cdfa4 ∷ 0x0ce0dc ∷ 0x1007b6 ∷ 0x101dc0 ∷ 0x1029ab ∷ 0x102b41
    ∷ 0x103047 ∷ 0x103917 ∷ 0x103b59 ∷ 0x1077b1 ∷ 0x1089fb ∷ 0x108ee0 ∷ 0x109266 ∷ 0x10d38a
    ∷ 0x10d542 ∷ 0x10e4c2 ∷ 0x10ec81 ∷ 0x140152 ∷ 0x141f78 ∷ 0x1432d1 ∷ 0x14568e ∷ 0x1489fd
    ∷ 0x1496e5 ∷ 0x149f3c ∷ 0x14a364 ∷ 0x14b484 ∷ 0x14bb6e ∷ 0x14f42a ∷ 0x1816c9 ∷ 0x1819d6
    ∷ 0x181eb0 ∷ 0x182195 ∷ 0x18227e ∷ 0x182666 ∷ 0x183a2d ∷ 0x183f47 ∷ 0x184617 ∷ 0x184e16
    ∷ 0x184ecb ∷ 0x1854cf ∷ 0x185bb3 ∷ 0x1867b0 ∷ 0x188331 ∷ 0x18895b ∷ 0x18ab1d ∷ 0x18bfb3
    ∷ 0x18ce94 ∷ 0x18e2c2 ∷ 0x1c232c ∷ 0x1c3ade ∷ 0x1c5a3e ∷ 0x1c62b8 ∷ 0x1c66aa ∷ 0x1caf05
    ∷ 0x1ce57f ∷ 0x1ce61d ∷ 0x2013e0 ∷ 0x202d07 ∷ 0x20326c ∷ 0x205531 ∷ 0x205ef7 ∷ 0x206e9c
    ∷ 0x20d390 ∷ 0x20d5bf ∷ 0x20dbab ∷ 0x244b03 ∷ 0x244b81 ∷ []
