-- ===== src/Hass/Vendors/Apple6.antt =====
-- internal/hass/vendors.go, lines 776 to 925: prefixes of Apple, each three bytes as one number.
use wifi_presence.Base.{ℕ, List, [], ◌∷◌}

unfoldable pub apple_macs_6 : List ℕ
apple_macs_6 =
    0xc8f650 ∷ 0xcc088d ∷ 0xcc08e0 ∷ 0xcc20e8 ∷ 0xcc25ef ∷ 0xcc29f5 ∷ 0xcc2db7 ∷ 0xcc4463 ∷ 0xcc660a
    ∷ 0xcc69fa ∷ 0xcc785f ∷ 0xccc760 ∷ 0xccc95d ∷ 0xccd281 ∷ 0xd0034b ∷ 0xd023db ∷ 0xd02598
    ∷ 0xd02b20 ∷ 0xd03311 ∷ 0xd03faa ∷ 0xd04f7e ∷ 0xd06544 ∷ 0xd0817a ∷ 0xd0a637 ∷ 0xd0c5f3
    ∷ 0xd0d23c ∷ 0xd0d2b0 ∷ 0xd0e140 ∷ 0xd446e1 ∷ 0xd45763 ∷ 0xd4619d ∷ 0xd461da ∷ 0xd468aa
    ∷ 0xd4909c ∷ 0xd49a20 ∷ 0xd4a33d ∷ 0xd4dccd ∷ 0xd4f46f ∷ 0xd8004d ∷ 0xd81c79 ∷ 0xd81d72
    ∷ 0xd83062 ∷ 0xd84c90 ∷ 0xd88f76 ∷ 0xd89695 ∷ 0xd89e3f ∷ 0xd8a25e ∷ 0xd8bb2c ∷ 0xd8be1f
    ∷ 0xd8cf9c ∷ 0xd8d1cb ∷ 0xd8dc40 ∷ 0xd8de3a ∷ 0xdc080f ∷ 0xdc0c5c ∷ 0xdc2b2a ∷ 0xdc2b61
    ∷ 0xdc3714 ∷ 0xdc415f ∷ 0xdc5285 ∷ 0xdc5392 ∷ 0xdc56e7 ∷ 0xdc86d8 ∷ 0xdc9b9c ∷ 0xdca4ca
    ∷ 0xdca904 ∷ 0xdcb54f ∷ 0xdcd3a2 ∷ 0xdcf4ca ∷ 0xe02b96 ∷ 0xe0338e ∷ 0xe05f45 ∷ 0xe06678
    ∷ 0xe06d17 ∷ 0xe0897e ∷ 0xe0925c ∷ 0xe0accb ∷ 0xe0b52d ∷ 0xe0b55f ∷ 0xe0b9ba ∷ 0xe0c767
    ∷ 0xe0c97a ∷ 0xe0eb40 ∷ 0xe0f5c6 ∷ 0xe0f847 ∷ 0xe425e7 ∷ 0xe42b34 ∷ 0xe450eb ∷ 0xe47684
    ∷ 0xe48b7f ∷ 0xe490fd ∷ 0xe498d6 ∷ 0xe49a79 ∷ 0xe49adc ∷ 0xe4b2fb ∷ 0xe4c63d ∷ 0xe4ce8f
    ∷ 0xe4e0a6 ∷ 0xe4e4ab ∷ 0xe8040b ∷ 0xe80688 ∷ 0xe81cd8 ∷ 0xe83617 ∷ 0xe87865 ∷ 0xe87f95
    ∷ 0xe8802e ∷ 0xe88152 ∷ 0xe8854b ∷ 0xe88d28 ∷ 0xe8a730 ∷ 0xe8b2ac ∷ 0xe8fbe9 ∷ 0xec2651
    ∷ 0xec2ce2 ∷ 0xec3586 ∷ 0xec852f ∷ 0xecadb8 ∷ 0xecced7 ∷ 0xf01898 ∷ 0xf02475 ∷ 0xf02f4b
    ∷ 0xf05cd5 ∷ 0xf0766f ∷ 0xf07807 ∷ 0xf07960 ∷ 0xf0989d ∷ 0xf099b6 ∷ 0xf099bf ∷ 0xf0a35a
    ∷ 0xf0b0e7 ∷ 0xf0b3ec ∷ 0xf0b479 ∷ 0xf0c1f1 ∷ 0xf0c371 ∷ 0xf0cba1 ∷ 0xf0d1a9 ∷ 0xf0dbe2
    ∷ 0xf0dbf8 ∷ 0xf0dce2 ∷ 0xf0f61c ∷ 0xf40616 ∷ 0xf40e01 ∷ 0xf40f24 ∷ 0xf41ba1 ∷ 0xf431c3
    ∷ 0xf434f0 ∷ 0xf437b7 ∷ 0xf45c89 ∷ 0xf465a6 ∷ 0xf4afe7 ∷ []
