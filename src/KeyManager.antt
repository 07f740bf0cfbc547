-- ===== src/KeyManager.antt =====
-- src/key_management.c: the double ratchet.
pub mod State
pub mod Hashes
pub mod Ephemeral
pub mod Ratchet
pub mod Chain
pub mod Schedule
pub mod Window
pub mod Skipped
pub mod Rotation
pub mod Agreement
pub mod Start
pub mod Session
pub mod Tests
mod Examples
