-- ===== src/Presence.antt =====
-- internal/presence.
pub mod Mac
pub mod Debounce
pub mod State
pub mod Delivery
pub mod Events
pub mod Connected
pub mod Config
pub mod Threads
pub mod Program
pub mod Ending
pub mod Construction
