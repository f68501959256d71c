-- ===== src/Hass/Vendors/Apple7.antt =====
-- internal/hass/vendors.go, lines 926 to 958: prefixes of Apple, each three bytes as one number.
use wifi_presence.Base.{ℕ, List, [], ◌∷◌}

unfoldable pub apple_macs_7 : List ℕ
apple_macs_7 =
    0xf4beec ∷ 0xf4d488 ∷ 0xf4dbe3 ∷ 0xf4f15a ∷ 0xf4f951 ∷ 0xf80377 ∷ 0xf81093 ∷ 0xf81edf ∷ 0xf82793
    ∷ 0xf82d7c ∷ 0xf83880 ∷ 0xf84d89 ∷ 0xf84e73 ∷ 0xf86214 ∷ 0xf8665a ∷ 0xf86fc1 ∷ 0xf887f1
    ∷ 0xf895ea ∷ 0xf8b1dd ∷ 0xf8c3cc ∷ 0xf8e94e ∷ 0xf8ffc2 ∷ 0xfc183c ∷ 0xfc1d43 ∷ 0xfc253f
    ∷ 0xfc2a9c ∷ 0xfc4ea4 ∷ 0xfc66cf ∷ 0xfcaa81 ∷ 0xfcb6d8 ∷ 0xfcd848 ∷ 0xfce998 ∷ 0xfcfc48 ∷ []
