-- ===== src/Gate.antt =====
-- internal/gate: the process that keeps client connections and sessions.
pub mod State
pub mod Sessions
pub mod Remote
pub mod Conn
pub mod Token
pub mod Offline
pub mod Login
pub mod Resume
pub mod Timers
pub mod Handler
pub mod System
pub mod Invariant
pub mod Players
pub mod Muted
