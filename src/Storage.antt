-- ===== src/Storage.antt =====
-- CORE/src/driver: the transfers between disks and memory, and the rings of their controllers.
pub mod Nvme
pub mod Ata
mod Tests
