-- ===== src/Disk.antt =====
-- CORE/src/driver/disk and CORE/src/fs: the disks and their partitions.
pub mod Devices
pub mod Partitions
mod Tests
