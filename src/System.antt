-- ===== src/System.antt =====
-- pypsutil/_system.py: system-wide information over the platform module.
pub mod NetIo
pub mod Battery
