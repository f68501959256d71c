-- ===== src/Tests.antt =====
-- Runs of the model at concrete inputs.
mod Ending
mod Open
mod Sockets
mod Fixtures
mod Events
mod Absence
mod Threads
mod Program
mod Config
mod Debounce
mod Parsers
mod Topics
mod Subscribe
mod Client
mod Fake
mod Attach
mod Detach
mod Command
