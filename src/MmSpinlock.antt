-- ===== src/MmSpinlock.antt =====
-- mm_spinlock/mm_spinlock.c: a /proc file that exercises the kernel's memory leak detector.
pub mod Store
pub mod Leak
mod Tests
