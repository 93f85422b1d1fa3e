-- ===== src/Mkfs.antt =====
-- simplefs/mkfs-simplefs.c, the program that writes an empty volume, and the volume as the bytes of a
-- device.
pub mod Layout
pub mod Format
pub mod Bytes
pub mod Formatted
pub mod Outcome
pub mod Listed
pub mod Opened
mod Tests
