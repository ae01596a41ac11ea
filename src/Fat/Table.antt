-- ===== src/Fat/Table.antt =====
-- kernel/kernel/fs/fat_core.c: `fat_read_fat`, one step along a chain of clusters.
use yetanotheros.Common.{ℕ, ◌+◌, ◌-◌, ◌*◌, ◌/◌, ◌%◌, ◌^◌, ◌==◌, if◌then◌else◌, leb}
use yetanotheros.Fat.Volume.{Device, FatType, FatSuper, u32}

-- FAT_OK, FAT_LAST_CLUSTER, FAT_BAD_CLUSTER and FAT_ERROR
pub data FatStatus : Type 0 where
  fat_ok fat_last_cluster fat_bad_cluster fat_error : FatStatus

-- Little-endian numbers on the device
abbrev pub read16 : Device → ℕ → ℕ → ℕ
read16 dev sector off = dev sector off + 256 * dev sector (off + 1)

abbrev pub read32 : Device → ℕ → ℕ → ℕ
read32 dev sector off =
    dev sector off
    + 256 * dev sector (off + 1)
    + 65536 * dev sector (off + 2)
    + 16777216 * dev sector (off + 3)

-- The comparisons that follow each read: the least value that ends a chain, and the one below it
-- for a bad cluster.
unfoldable pub link_status : ℕ → ℕ → FatStatus
link_status last next =
    if leb last next then fat_last_cluster else if next == last - 1 then fat_bad_cluster else fat_ok

-- The first `switch`: where the entry of a cluster begins in the table.
unfoldable pub fat_offset : FatType → ℕ → ℕ
fat_offset FatType.fat12 cluster = u32 (cluster + cluster / 2)
fat_offset FatType.fat16 cluster = u32 (cluster * 2)
fat_offset FatType.fat32 cluster = u32 (cluster * 4)
fat_offset FatType.ex_fat cluster = 0

abbrev pub fat_sector : FatSuper → ℕ → ℕ
fat_sector s offset = u32 (s.first_fat_sector + offset / s.bs.bytes_per_sector)

abbrev pub ent_offset : FatSuper → ℕ → ℕ
ent_offset s offset = offset % s.bs.bytes_per_sector

-- The second `switch`: the entry's value.
unfoldable pub decode_entry : FatType → Device → ℕ → ℕ → ℕ → ℕ
decode_entry FatType.fat12 dev sector off cluster =
    if cluster % 2 == 1 then read16 dev sector off / 16 else read16 dev sector off % 2 ^ 12
decode_entry FatType.fat16 dev sector off cluster = read16 dev sector off
decode_entry FatType.fat32 dev sector off cluster = read32 dev sector off % 2 ^ 28
decode_entry FatType.ex_fat dev sector off cluster = 0

abbrev pub last_value : FatType → ℕ
last_value FatType.fat12 = 0x0ff8
last_value FatType.fat16 = 0xfff8
last_value FatType.fat32 = 0x0fff_fff8
last_value FatType.ex_fat = 0

-- `fat_read_fat` on the old value of `*next_cluster`
unfoldable pub fat_read_fat_of : FatType → FatSuper → Device → ℕ → ℕ → FatStatus × ℕ
unfolding fat_offset decode_entry link_status
fat_read_fat_of FatType.ex_fat s dev next cluster = (fat_error, next)
fat_read_fat_of type s dev next cluster =
    let offset = fat_offset type cluster in
    let value = decode_entry type dev (fat_sector s offset) (ent_offset s offset) cluster in
    (link_status (last_value type) value, value)

unfoldable pub fat_read_fat : FatSuper → Device → ℕ → ℕ → FatStatus × ℕ
unfolding fat_read_fat_of
fat_read_fat s dev next cluster = fat_read_fat_of s.type s dev next cluster
