-- ===== src/Media.antt =====
-- Byte ranges and the block cache of shared local files.
mod Tests
pub mod Range
pub mod BlockCache
