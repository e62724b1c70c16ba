-- ===== src/Mm.antt =====
-- CORE/src/mm: the memory maps, the physical pages and the heap.
pub mod Block
pub mod Paging
pub mod Physical
pub mod Area
pub mod Heap
mod Tests
