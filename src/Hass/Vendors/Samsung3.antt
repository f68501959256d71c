-- ===== src/Hass/Vendors/Samsung3.antt =====
-- internal/hass/vendors.go, lines 1319 to 1468: prefixes of Samsung, each three bytes as one number.
use wifi_presence.Base.{ℕ, List, [], ◌∷◌}

unfoldable pub samsung_macs_3 : List ℕ
samsung_macs_3 =
    0x687d6b ∷ 0x68bfc4 ∷ 0x68e7c2 ∷ 0x68ebae ∷ 0x6c006b ∷ 0x6c2f2c ∷ 0x6c2f8a ∷ 0x6c8336 ∷ 0x6cb7f4
    ∷ 0x6cddbc ∷ 0x6cf373 ∷ 0x700971 ∷ 0x701f3c ∷ 0x70288b ∷ 0x702ad5 ∷ 0x705aac ∷ 0x70b13d
    ∷ 0x70ce8c ∷ 0x70f927 ∷ 0x70fd46 ∷ 0x74458a ∷ 0x745f00 ∷ 0x749ef5 ∷ 0x74eb80 ∷ 0x78009e
    ∷ 0x781fdb ∷ 0x782327 ∷ 0x7825ad ∷ 0x783716 ∷ 0x7840e4 ∷ 0x7846d4 ∷ 0x78471d ∷ 0x78521a
    ∷ 0x78595e ∷ 0x789ed0 ∷ 0x78a873 ∷ 0x78abbb ∷ 0x78bdbc ∷ 0x78c3e9 ∷ 0x78f7be ∷ 0x7c0a3f
    ∷ 0x7c0bc6 ∷ 0x7c1c68 ∷ 0x7c2302 ∷ 0x7c2edd ∷ 0x7c38ad ∷ 0x7c6456 ∷ 0x7c787e ∷ 0x7c8956
    ∷ 0x7c8bb5 ∷ 0x7c9122 ∷ 0x7cf854 ∷ 0x7cf90e ∷ 0x8018a7 ∷ 0x8020fd ∷ 0x8031f0 ∷ 0x804786
    ∷ 0x804e70 ∷ 0x804e81 ∷ 0x805719 ∷ 0x80656d ∷ 0x807b3e ∷ 0x8086d9 ∷ 0x808abd ∷ 0x809ff5
    ∷ 0x80ceb9 ∷ 0x84119e ∷ 0x842519 ∷ 0x8425db ∷ 0x842e27 ∷ 0x8437d5 ∷ 0x845181 ∷ 0x8455a5
    ∷ 0x849866 ∷ 0x84a466 ∷ 0x84b541 ∷ 0x84c0ef ∷ 0x88299c ∷ 0x887598 ∷ 0x888322 ∷ 0x889b39
    ∷ 0x889f6f ∷ 0x88a303 ∷ 0x88add2 ∷ 0x88bd45 ∷ 0x8c1abf ∷ 0x8c71f8 ∷ 0x8c7712 ∷ 0x8c79f5
    ∷ 0x8c83e1 ∷ 0x8cb0e9 ∷ 0x8cbfa6 ∷ 0x8cc8cd ∷ 0x8cdee6 ∷ 0x8ce5c0 ∷ 0x8cea48 ∷ 0x9000db
    ∷ 0x900628 ∷ 0x90633b ∷ 0x908175 ∷ 0x9097f3 ∷ 0x90b144 ∷ 0x90b622 ∷ 0x90eec7 ∷ 0x90f1aa
    ∷ 0x9401c2 ∷ 0x942ddc ∷ 0x94350a ∷ 0x945103 ∷ 0x9463d1 ∷ 0x9476b7 ∷ 0x947be7 ∷ 0x948bc1
    ∷ 0x94b10a ∷ 0x94d771 ∷ 0x98063c ∷ 0x981dfa ∷ 0x982d68 ∷ 0x98398e ∷ 0x9852b1 ∷ 0x9880ee
    ∷ 0x988389 ∷ 0x98b8bc ∷ 0x9c0298 ∷ 0x9c2a83 ∷ 0x9c3aaf ∷ 0x9c5fb0 ∷ 0x9c65b0 ∷ 0x9c8c6e
    ∷ 0x9ca513 ∷ 0x9cd35b ∷ 0x9ce063 ∷ 0x9ce6e7 ∷ 0xa00798 ∷ 0xa01081 ∷ 0xa02195 ∷ 0xa027b6
    ∷ 0xa06090 ∷ 0xa07591 ∷ 0xa0821f ∷ 0xa0ac69 ∷ 0xa0b4a5 ∷ 0xa0cbfd ∷ 0xa0d05b ∷ 0xa0d722
    ∷ 0xa0d7f3 ∷ 0xa407b6 ∷ 0xa4307a ∷ 0xa46cf1 ∷ 0xa48431 ∷ []
