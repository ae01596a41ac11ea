-- ===== src/Vm.antt =====
-- The kernel's map of regions of memory, kernel/arch/i386/memlayout.c.
pub mod Layout
pub mod Walk
mod Tests
