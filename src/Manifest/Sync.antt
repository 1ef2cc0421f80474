-- ===== src/Manifest/Sync.antt =====
-- server/src/services/manifest/ManifestSyncService.ts.
pub mod Associations
pub mod PollingCalls
pub mod Locks
pub mod Result
pub mod Apply
pub mod Aliases
pub mod Overrides
