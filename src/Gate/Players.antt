-- ===== src/Gate/Players.antt =====
-- Which players the sessions of a gate have.
pub mod Defs
pub mod Closing
pub mod Timers
pub mod Resume
pub mod Handler
pub mod Answer
pub mod System
