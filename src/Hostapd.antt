-- ===== src/Hostapd.antt =====
-- internal/hostapd.
pub mod Mac
pub mod Event
pub mod Status
pub mod Station
pub mod Ctrl
pub mod Socket
pub mod Client
pub mod Attach
