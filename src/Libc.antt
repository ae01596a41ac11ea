-- ===== src/Libc.antt =====
-- The C library: its memory and string functions, libc/string/memutils.c and strutils.c, and its
-- streams, libc/stdio/stream.c.
pub mod Memory
pub mod Move
pub mod Strings
pub mod Search
pub mod Copying
pub mod CopyLaws
pub mod Stream
pub mod StreamLaws
mod Tests
mod StreamTests
