-- ===== src/Ata.antt =====
-- The block cache of the ATA driver, kernel/kernel/drivers/ata/generic.c.
pub mod Cache
pub mod Search
pub mod Sound
pub mod Claim
pub mod Transfer
pub mod Steps
pub mod Disk
mod Tests
