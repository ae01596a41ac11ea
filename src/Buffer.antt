-- ===== src/Buffer.antt =====
-- The exclusive buffer, kernel/kernel/exclusive_buffer.c: a queue of bytes between threads.
pub mod Ring
pub mod Slices
pub mod Queue
pub mod Refine
mod Tests
