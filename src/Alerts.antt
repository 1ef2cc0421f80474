-- ===== src/Alerts.antt =====
-- The alert engine: server/src/services/alerts.
pub mod Flap
pub mod Limiter
pub mod Dispatch
