-- ===== src/Paging.antt =====
-- Page tables, kernel/arch/i386/paging/core.c, and the memory of a process on top of them,
-- kernel/arch/i386/proc.c.
pub mod Words
pub mod Bits
pub mod Tables
pub mod Space
pub mod Ensure
pub mod Fill
pub mod Map
pub mod Mapped
pub mod MapLaws
pub mod Take
pub mod Break
pub mod Reserve
pub mod Growth
pub mod BreakLaws
pub mod Exchange
pub mod DataPages
pub mod PageWrite
pub mod ExchangeLaws
pub mod View
pub mod ReadBack
mod Tests
