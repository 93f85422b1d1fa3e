-- ===== src/Lock.antt =====
-- app/lock.cpp: a program of four threads, two of which take two mutexes in opposite orders.
pub mod Program
pub mod Discipline
pub mod Moves
pub mod Exclusion
pub mod Crossed
pub mod Deadlock
pub mod Circular
mod Tests
