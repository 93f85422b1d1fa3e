-- ===== src/MmDebug.antt =====
-- mm/mm_debug.c: a /proc file whose writes set the number of a process.
pub mod Entry
pub mod Shown
mod Tests
