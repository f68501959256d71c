-- ===== src/Hass/Vendors/Apple4.antt =====
-- internal/hass/vendors.go, lines 476 to 625: prefixes of Apple, each three bytes as one number.
use wifi_presence.Base.{ℕ, List, [], ◌∷◌}

unfoldable pub apple_macs_4 : List ℕ
apple_macs_4 =
    0x787b8a ∷ 0x787e61 ∷ 0x78886d ∷ 0x789f70 ∷ 0x78a3e4 ∷ 0x78ca39 ∷ 0x78d162 ∷ 0x78d75f ∷ 0x78e3de
    ∷ 0x78fd94 ∷ 0x7c0191 ∷ 0x7c04d0 ∷ 0x7c11be ∷ 0x7c2499 ∷ 0x7c5049 ∷ 0x7c6d62 ∷ 0x7c6df8
    ∷ 0x7c9a1d ∷ 0x7ca1ae ∷ 0x7cab60 ∷ 0x7cc3a1 ∷ 0x7cc537 ∷ 0x7cd1c3 ∷ 0x7cf05f ∷ 0x7cfadf
    ∷ 0x7cfc16 ∷ 0x80006e ∷ 0x800c67 ∷ 0x804971 ∷ 0x804a14 ∷ 0x805fc5 ∷ 0x808223 ∷ 0x80929f
    ∷ 0x80b03d ∷ 0x80be05 ∷ 0x80d605 ∷ 0x80e650 ∷ 0x80ea96 ∷ 0x80ed2c ∷ 0x842999 ∷ 0x843835
    ∷ 0x844167 ∷ 0x846878 ∷ 0x84788b ∷ 0x848506 ∷ 0x8489ad ∷ 0x848c8d ∷ 0x848e0c ∷ 0x84a134
    ∷ 0x84ab1a ∷ 0x84ac16 ∷ 0x84ad8d ∷ 0x84b153 ∷ 0x84fcac ∷ 0x84fcfe ∷ 0x881908 ∷ 0x881fa1
    ∷ 0x884d7c ∷ 0x885395 ∷ 0x8863df ∷ 0x886440 ∷ 0x88665a ∷ 0x8866a5 ∷ 0x886b6e ∷ 0x88a479
    ∷ 0x88a9b7 ∷ 0x88ae07 ∷ 0x88b291 ∷ 0x88b945 ∷ 0x88c08b ∷ 0x88c663 ∷ 0x88cb87 ∷ 0x88e87f
    ∷ 0x88e9fe ∷ 0x8c006d ∷ 0x8c2937 ∷ 0x8c2daa ∷ 0x8c5877 ∷ 0x8c7aaa ∷ 0x8c7b9d ∷ 0x8c7c92
    ∷ 0x8c8590 ∷ 0x8c861e ∷ 0x8c8ef2 ∷ 0x8c8fe9 ∷ 0x8cec7b ∷ 0x8cfaba ∷ 0x8cfe57 ∷ 0x9027e4
    ∷ 0x903c92 ∷ 0x9060f1 ∷ 0x907240 ∷ 0x90812a ∷ 0x908158 ∷ 0x90840d ∷ 0x908c43 ∷ 0x908d6c
    ∷ 0x909c4a ∷ 0x90a25b ∷ 0x90b0ed ∷ 0x90b21f ∷ 0x90b931 ∷ 0x90c1c6 ∷ 0x90dd5d ∷ 0x90e17b
    ∷ 0x90fd61 ∷ 0x940c98 ∷ 0x941625 ∷ 0x945c9a ∷ 0x949426 ∷ 0x94b01f ∷ 0x94bf2d ∷ 0x94e96a
    ∷ 0x94ea32 ∷ 0x94f6a3 ∷ 0x94f6d6 ∷ 0x9800c6 ∷ 0x9801a7 ∷ 0x9803d8 ∷ 0x9810e8 ∷ 0x98460a
    ∷ 0x98502e ∷ 0x985aeb ∷ 0x9860ca ∷ 0x989e63 ∷ 0x98b8e3 ∷ 0x98ca33 ∷ 0x98d6bb ∷ 0x98dd60
    ∷ 0x98e0d9 ∷ 0x98f0ab ∷ 0x98fe94 ∷ 0x9c04eb ∷ 0x9c207b ∷ 0x9c28b3 ∷ 0x9c293f ∷ 0x9c35eb
    ∷ 0x9c4fda ∷ 0x9c583c ∷ 0x9c648b ∷ 0x9c760e ∷ 0x9c84bf ∷ 0x9c8ba0 ∷ 0x9ce33f ∷ 0x9ce65e
    ∷ 0x9cf387 ∷ 0x9cf48e ∷ 0x9cfc01 ∷ 0x9cfc28 ∷ 0xa01828 ∷ []
