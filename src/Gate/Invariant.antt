-- ===== src/Gate/Invariant.antt =====
-- What holds of every gate between two events.
pub mod Defs
pub mod Frames
pub mod Offline
pub mod Timers
pub mod Login
pub mod LoginRsp
pub mod Resume
pub mod Handler
pub mod Ids
pub mod System
