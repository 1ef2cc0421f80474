-- ===== src/Examples.antt =====
-- The theorems at concrete inputs.
mod Data
mod Polling
mod Cycles
mod Alerting
mod Access
mod Manifests
mod Flags
mod Impacts
mod Syncs
mod Aliases
mod CanonicalOverrides
mod Errors
mod Graphs
mod Validations
mod Associations
