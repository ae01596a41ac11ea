-- ===== src/Fat.antt =====
-- The FAT file system driver, kernel/kernel/fs/fat.c and fat_core.c: mounting, the allocation
-- table, reading, and directory entries.
pub mod Volume
pub mod Table
pub mod Read
pub mod Entry
pub mod TableLaws
pub mod ReadLaws
pub mod EntryLaws
pub mod Nodes
pub mod NodeLaws
pub mod NodeCounts
pub mod NodeSteps
pub mod ReadBounds
pub mod Leaves
pub mod LeafLaws
pub mod Tests
mod NodeTests
