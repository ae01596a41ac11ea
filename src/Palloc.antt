-- ===== src/Palloc.antt =====
-- The physical memory allocator of kernel/arch/i386/palloc.c: its operations, and the list of free
-- pages that its links stand for.
pub mod Pages
pub mod FreeList
pub mod Regions
mod Tests
