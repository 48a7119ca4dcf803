-- ===== src/Ingest.antt =====
-- The ingestion service (packages/dist-ingest/src/dist_ingest).
mod Examples
mod Scenarios
mod Rounds
pub mod Provenance
pub mod Attestation
pub mod Gates
pub mod Quarantine
pub mod Policy
pub mod Sources
pub mod Schedule
pub mod Releases
