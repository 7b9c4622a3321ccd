-- ===== src/Player.antt =====
-- The player of a client: src/client/player.
pub mod Sync
