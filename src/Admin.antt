-- ===== src/Admin.antt =====
-- The web application of the operators (packages/dist-admin/src/dist_admin).
pub mod Auth
pub mod Forms
pub mod Routes
