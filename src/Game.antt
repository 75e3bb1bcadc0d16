-- ===== src/Game.antt =====
-- The game process: internal/game.
pub mod Player
pub mod Manager
pub mod Server
