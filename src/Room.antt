-- ===== src/Room.antt =====
-- The room state of src/contracts and the functions on it of src/server/realtime/services.
pub mod State
pub mod Timeline
pub mod ActionLog
pub mod Playlist
pub mod Catalog
pub mod Permissions
pub mod Ownership
pub mod Participants
pub mod Security
pub mod Repair
pub mod Samples
pub mod Messages
pub mod Offline
pub mod Mutate
pub mod Handlers
pub mod Presence
pub mod Reports
pub mod Creation
pub mod Join
pub mod Sweep
pub mod History
