-- ===== src/Irq.antt =====
-- CORE/src/interrupt: the table of interrupt controllers.
pub mod Madt
mod Tests
