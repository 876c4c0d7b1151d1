-- ===== src/LiveConnection.antt =====
-- frontend/src/liveConnection.ts: the websocket client that keeps itself connected.
pub mod State
pub mod Backoff
pub mod Bounds
pub mod Handlers
pub mod Events
pub mod Invariant
pub mod Timers
pub mod Sockets
pub mod Silence
pub mod Recovery
pub mod Progress
pub mod Watchdog
pub mod Generations
mod Tests
