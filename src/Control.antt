-- ===== src/Control.antt =====
-- The coordination server (control-server/src).
pub mod Ipam
pub mod Domain
pub mod Display
pub mod Key
pub mod Store
pub mod Pop
