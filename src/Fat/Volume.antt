-- ===== src/Fat/Volume.antt =====
-- kernel/kernel/fs/fat.c: what `fat_create_super` computes from the boot sector.
use yetanotheros.Common.{
  ℕ, ◌+◌, ◌-◌, ◌*◌, ◌/◌, ◌%◌, ◌^◌, Bool, true, false, Option, none, some, ◌==◌, if◌then◌else◌, ltb,
  ◌&&◌, not,
}
use yetanotheros.Common.Outcome.{Outcome, ok, ◌>>◌, kassert}

-- `super->bdev`: a byte of a sector. Locking a block and unlocking it has no part in the value.
abbrev pub Device : Type 0
Device = ℕ → ℕ → ℕ

-- `enum fat_type`
pub data FatType : Type 0 where
  fat12 fat16 fat32 ex_fat : FatType

-- The fields of `struct fat_bootsec` that the driver reads. The extensions overlap in memory:
-- whether either label begins with "FAT" is a field for each.
pub record FatBootsec : Type 0 where
  pub label16_is_fat : Bool
  pub label32_is_fat : Bool
  pub bytes_per_sector : ℕ
  pub sectors_per_cluster : ℕ
  pub reserved_sector_count : ℕ
  pub table_count : ℕ
  pub root_entry_count : ℕ
  pub total_sectors_16 : ℕ
  pub table_size_16 : ℕ
  pub total_sectors_32 : ℕ
  pub table_size_32 : ℕ
  pub root_cluster : ℕ

-- `struct fat_vfs_super_data`, without the node cache
pub record FatSuper : Type 0 where
  pub bs : FatBootsec
  pub type : FatType
  pub num_sectors : ℕ
  pub fat_size : ℕ
  pub num_root_dir_sectors : ℕ
  pub first_data_sector : ℕ
  pub first_fat_sector : ℕ
  pub num_data_sectors : ℕ
  pub num_clusters : ℕ
  pub first_root_dir_sector : ℕ
  pub entries_per_cluster : ℕ
  pub bytes_per_cluster : ℕ
  pub root_attributes : ℕ
  pub root_cluster_high : ℕ
  pub root_cluster_low : ℕ

abbrev pub fat_entry_size : ℕ
fat_entry_size = 32

abbrev pub fat_cluster_offset : ℕ
fat_cluster_offset = 2

-- Sums and differences of `uint32_t`
abbrev pub u32 : ℕ → ℕ
u32 n = n % 2 ^ 32

abbrev pub sub32 : ℕ → ℕ → ℕ
sub32 a b = u32 (a % 2 ^ 32 + 2 ^ 32 - b % 2 ^ 32)

unfoldable pub first_sector_of_cluster : ℕ → ℕ → ℕ → ℕ
first_sector_of_cluster sectors_per_cluster first_data_sector cluster =
    u32 (sub32 cluster fat_cluster_offset * sectors_per_cluster + first_data_sector)

-- `fat_first_sector_of_cluster`
abbrev pub fat_first_sector_of_cluster : FatSuper → ℕ → ℕ
fat_first_sector_of_cluster s cluster =
    first_sector_of_cluster s.bs.sectors_per_cluster s.first_data_sector cluster

-- The type that goes with a number of clusters.
unfoldable pub fat_type_of : ℕ → FatType
fat_type_of num_clusters =
    if ltb num_clusters 4085
    then fat12
    else if ltb num_clusters 65525
    then fat16
    else if ltb num_clusters 268435445
    then fat32
    else ex_fat

abbrev pub is_fat32 : FatType → Bool
is_fat32 FatType.fat32 = true
is_fat32 _ = false

-- `fat_create_super` on a boot sector and the block size of its device; `none` is the jump to
-- `failed`. Division by 0 stops the machine.
unfoldable pub fat_create_super : FatBootsec → ℕ → Outcome (Option FatSuper)
unfolding fat_type_of
fat_create_super bs block_size =
    if not bs.label16_is_fat && not bs.label32_is_fat
    then ok none
    else if not (bs.bytes_per_sector == block_size)
    then ok none
    else do
      let num_sectors : ℕ =
          if bs.total_sectors_16 == 0 then bs.total_sectors_32 else bs.total_sectors_16
      let fat_size : ℕ = if bs.table_size_16 == 0 then bs.table_size_32 else bs.table_size_16
      kassert (not (bs.bytes_per_sector == 0))
      let num_root_dir_sectors : ℕ =
          (bs.root_entry_count * fat_entry_size + bs.bytes_per_sector - 1) / bs.bytes_per_sector
      let first_data_sector : ℕ =
          u32 (bs.reserved_sector_count + bs.table_count * fat_size + num_root_dir_sectors)
      let num_data_sectors : ℕ = sub32 num_sectors first_data_sector
      kassert (not (bs.sectors_per_cluster == 0))
      let num_clusters : ℕ = num_data_sectors / bs.sectors_per_cluster
      if not (is_fat32 (fat_type_of num_clusters)) then ok none else do
        kassert (bs.sectors_per_cluster * bs.bytes_per_sector % fat_entry_size == 0)
        ok (
            some (record {
              bs = bs;
              type = fat32;
              num_sectors = num_sectors;
              fat_size = fat_size;
              num_root_dir_sectors = num_root_dir_sectors;
              first_data_sector = first_data_sector;
              first_fat_sector = bs.reserved_sector_count;
              num_data_sectors = num_data_sectors;
              num_clusters = num_clusters;
              first_root_dir_sector =
                  first_sector_of_cluster bs.sectors_per_cluster first_data_sector bs.root_cluster;
              entries_per_cluster = bs.sectors_per_cluster * bs.bytes_per_sector / fat_entry_size;
              bytes_per_cluster = bs.sectors_per_cluster * bs.bytes_per_sector;
              root_attributes = 0x14;
              root_cluster_high = bs.root_cluster / 2 ^ 16 % 2 ^ 16;
              root_cluster_low = bs.root_cluster % 2 ^ 16;
            }))
