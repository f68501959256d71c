-- ===== src/Hass/Vendors/Apple5.antt =====
-- internal/hass/vendors.go, lines 626 to 775: prefixes of Apple, each three bytes as one number.
use wifi_presence.Base.{ℕ, List, [], ◌∷◌}

unfoldable pub apple_macs_5 : List ℕ
apple_macs_5 =
    0xa03be3 ∷ 0xa04ea7 ∷ 0xa04ecf ∷ 0xa056f3 ∷ 0xa07817 ∷ 0xa0999b ∷ 0xa0a309 ∷ 0xa0d795 ∷ 0xa0edcd
    ∷ 0xa0fbc5 ∷ 0xa43135 ∷ 0xa45e60 ∷ 0xa46706 ∷ 0xa477f3 ∷ 0xa483e7 ∷ 0xa4b197 ∷ 0xa4b805
    ∷ 0xa4c361 ∷ 0xa4d18c ∷ 0xa4d1d2 ∷ 0xa4d931 ∷ 0xa4e975 ∷ 0xa4f1e8 ∷ 0xa82066 ∷ 0xa84a28
    ∷ 0xa85b78 ∷ 0xa85c2c ∷ 0xa860b6 ∷ 0xa8667f ∷ 0xa8817e ∷ 0xa886dd ∷ 0xa88808 ∷ 0xa88e24
    ∷ 0xa8913d ∷ 0xa8968a ∷ 0xa8bbcf ∷ 0xa8be27 ∷ 0xa8fad8 ∷ 0xa8fe9d ∷ 0xac15f4 ∷ 0xac1d06
    ∷ 0xac1f74 ∷ 0xac293a ∷ 0xac3c0b ∷ 0xac49db ∷ 0xac61ea ∷ 0xac7f3e ∷ 0xac87a3 ∷ 0xac88fd
    ∷ 0xac9085 ∷ 0xacbc32 ∷ 0xaccf5c ∷ 0xace4b5 ∷ 0xacfdec ∷ 0xb019c6 ∷ 0xb03495 ∷ 0xb035b5
    ∷ 0xb0481a ∷ 0xb065bd ∷ 0xb0702d ∷ 0xb08c75 ∷ 0xb09fba ∷ 0xb0be83 ∷ 0xb0ca68 ∷ 0xb0e5f9
    ∷ 0xb418d1 ∷ 0xb41bb0 ∷ 0xb440a4 ∷ 0xb44bd2 ∷ 0xb456e3 ∷ 0xb485e1 ∷ 0xb48b19 ∷ 0xb49cdf
    ∷ 0xb4f0ab ∷ 0xb4f61c ∷ 0xb4fa48 ∷ 0xb8098a ∷ 0xb817c2 ∷ 0xb82aa9 ∷ 0xb8374a ∷ 0xb841a4
    ∷ 0xb844d9 ∷ 0xb853ac ∷ 0xb85d0a ∷ 0xb8634d ∷ 0xb8782e ∷ 0xb87bc5 ∷ 0xb881fa ∷ 0xb88d12
    ∷ 0xb89047 ∷ 0xb8b2f8 ∷ 0xb8c111 ∷ 0xb8c75d ∷ 0xb8e856 ∷ 0xb8f12a ∷ 0xb8f6b1 ∷ 0xb8ff61
    ∷ 0xbc0963 ∷ 0xbc3baf ∷ 0xbc4cc4 ∷ 0xbc52b7 ∷ 0xbc5436 ∷ 0xbc6778 ∷ 0xbc6c21 ∷ 0xbc926b
    ∷ 0xbc9fef ∷ 0xbca5a9 ∷ 0xbca920 ∷ 0xbcb863 ∷ 0xbce143 ∷ 0xbcec5d ∷ 0xbcfed9 ∷ 0xc01ada
    ∷ 0xc02c5c ∷ 0xc04442 ∷ 0xc06394 ∷ 0xc0847a ∷ 0xc09ad0 ∷ 0xc09f42 ∷ 0xc0a53e ∷ 0xc0a600
    ∷ 0xc0b658 ∷ 0xc0ccf8 ∷ 0xc0cecd ∷ 0xc0d012 ∷ 0xc0e862 ∷ 0xc0f2fb ∷ 0xc40b31 ∷ 0xc41234
    ∷ 0xc41411 ∷ 0xc42ad0 ∷ 0xc42c03 ∷ 0xc4618b ∷ 0xc48466 ∷ 0xc4910c ∷ 0xc49880 ∷ 0xc4b301
    ∷ 0xc4c36b ∷ 0xc81ee7 ∷ 0xc82a14 ∷ 0xc8334b ∷ 0xc83c85 ∷ 0xc869cd ∷ 0xc86f1d ∷ 0xc88550
    ∷ 0xc8b1cd ∷ 0xc8b5b7 ∷ 0xc8bcc8 ∷ 0xc8d083 ∷ 0xc8e0eb ∷ []
