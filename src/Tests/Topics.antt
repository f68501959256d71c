-- ===== src/Tests/Topics.antt =====
-- Concrete topics.
use wifi_presence.Base.{◌≡◌, refl, inl, arith}
use wifi_presence.Hass.Topics.Distinct.{topics_injective}
use wifi_presence.Presence.Mac.{IsMac}
use wifi_presence.Tests.Fixtures.{mac1, mac2, daemon}

mac1-IsMac : IsMac mac1
mac1-IsMac = ground arith

mac2-IsMac : IsMac mac2
mac2-IsMac = ground arith

topics_injective_example : mac1 ≡ mac1
topics_injective_example =
    topics_injective daemon.hass.topics mac1 mac1 mac1-IsMac mac1-IsMac (inl refl)
