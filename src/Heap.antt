-- ===== src/Heap.antt =====
-- The kernel heap of kernel/arch/i386/heap.c: `Alloc` (the headers, `kalloc`), `Free` (`kfree`),
-- and the proofs against the list of blocks that the headers stand for.
pub mod Alloc
pub mod Free
pub mod Blocks
pub mod Check
pub mod Link
pub mod Kalloc
pub mod Truncate
pub mod Release
pub mod Kfree
mod Tests
