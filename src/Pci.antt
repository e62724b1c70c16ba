-- ===== src/Pci.antt =====
-- CORE/src/driver/pci/pci.c: the names of devices, and the configuration space.
pub mod Names
pub mod Vendor
pub mod Config
pub mod Scan
pub mod Express
mod Tests
