-- ===== src/Polling.antt =====
-- The health polling engine: server/src/services/polling.
pub mod Breaker
pub mod Backoff
pub mod Cache
pub mod HostLimiter
pub mod States
pub mod Engine
pub mod Cycle
pub mod Dedup
pub mod Control
pub mod ErrorHistory
