-- ===== src/Manifest/Validator.antt =====
-- server/src/services/manifest/ManifestValidator.ts.
pub mod Json
pub mod Issue
pub mod Service
pub mod Sections
pub mod Whole
