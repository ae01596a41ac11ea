-- ===== src/Vfs.antt =====
-- The virtual file system, kernel/kernel/vfs, and the calls of user programs on files,
-- kernel/kernel/syscall/file.c.
pub mod Mounts
pub mod File
pub mod Lifetime
pub mod Transfer
pub mod Reading
pub mod FatFile
pub mod Writing
pub mod Syscalls
pub mod Seek
pub mod SeekLaws
mod Tests
