-- ===== src/Registry.antt =====
-- packages/dist-registry: the operational database of the admin plane and of the two workers.
mod Examples
pub mod Models
pub mod Schema
pub mod Sources
pub mod Jobs
pub mod Accounts
pub mod Statements
