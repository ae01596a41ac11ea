-- ===== src/Block.antt =====
-- Block devices: their registry, kernel/kernel/block/registry.c, and the partitions that it finds on
-- them, kernel/kernel/block/mbr.c.
pub mod Devices
pub mod Scan
pub mod Names
pub mod Registry
mod Tests
