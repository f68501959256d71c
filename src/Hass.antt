-- ===== src/Hass.antt =====
-- internal/hass.
pub mod Topics
pub mod Vendors
pub mod Messages
pub mod Broker
pub mod Mqtt
pub mod Subscribe
pub mod Connection
