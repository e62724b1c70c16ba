-- ===== src/Std/Format.antt =====
-- CORE/src/std/sprintf.c.
pub mod Context
pub mod Digits
pub mod Emit
pub mod Float
pub mod Directive
pub mod Core
pub mod Fields
pub mod Text
pub mod Total
pub mod Buffer
pub mod Width
mod Tests
