-- ===== src/Simple.antt =====
-- The file system module, simplefs/simple.c with simple.h and super.h, a child to each part.
pub mod Types
pub mod Bytes
pub mod State
pub mod Super
pub mod Store
pub mod Directory
pub mod Objects
pub mod Machine
pub mod Readdir
pub mod Files
pub mod Mount
pub mod Session
pub mod Module
pub mod Locking
mod Tests
