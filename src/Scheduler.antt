-- ===== src/Scheduler.antt =====
-- The scheduler of kernel/arch/i386/scheduler.c. Children: `State` (the structures), `Process`
-- (process records), `Threads` (calls of a running thread), `Loop` (the scheduler's loop).
pub mod State
pub mod Process
pub mod Threads
pub mod Loop
pub mod Invariant
pub mod Calls
pub mod Tables
pub mod Rounds
pub mod Notify
pub mod Steps
pub mod Order
pub mod Wakeups
mod Tests
