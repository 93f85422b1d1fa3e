-- ===== src/Fifo.antt =====
-- globalfifo/globalfifo.c: a character device over a FIFO of 10 bytes, with processes that sleep
-- while it is empty or full.
pub mod Device
pub mod Queue
pub mod Answers
pub mod Reads
pub mod System
pub mod Sleepers
pub mod Waiting
pub mod Writers
pub mod Module
mod Tests
