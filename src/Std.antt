-- ===== src/Std.antt =====
-- CORE/src/std: formatted output and string trimming.
pub mod Format
