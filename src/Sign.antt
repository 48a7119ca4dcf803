-- ===== src/Sign.antt =====
-- The signing service (packages/dist-sign/src/dist_sign).
pub mod Worker
