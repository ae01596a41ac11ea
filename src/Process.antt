-- ===== src/Process.antt =====
-- What a process holds besides its threads: kernel/kernel/proc.c, the table of opened files; and
-- the mutex that guards it, kernel/arch/i386/thread_lock.c.
pub mod Files
pub mod Mutex
pub mod Exclusion
mod Tests
