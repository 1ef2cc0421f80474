-- ===== src/Manifest.antt =====
-- The manifest sync: server/src/services/manifest.
pub mod Validator
pub mod Differ
pub mod Sync
