-- ===== src/Tests.antt =====
-- Runs of the modelled code on concrete inputs.
pub mod Samples
mod Der
pub mod Adapter
mod Alarms
mod Certificates
pub mod Images
mod Digests
mod Numbers
mod Pools
mod Decisions
mod Scores
mod Vault
mod Signature
mod Blobs
mod Runs
mod Stores
mod Patterns
