-- ===== src/Xhci.antt =====
-- CORE/src/driver/xhci: the rings of the controller for USB.
pub mod Ring
mod Tests
