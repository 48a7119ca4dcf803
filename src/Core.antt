-- ===== src/Core.antt =====
-- packages/dist-core: what the services share.
pub mod Naming
pub mod Roles
pub mod Repository
