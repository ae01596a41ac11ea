-- ===== src/Fat/Tests.antt =====
-- A small FAT32 volume, and the theorems of the driver there.
use yetanotheros.Common.{
  ℕ, ◌+◌, ◌/◌, ◌%◌, ◌^◌, ◌≡◌, ◌<◌, ◌≤◌, ◌==◌, if◌then◌else◌, refl, true, false, List, [], ◌∷◌, some,
  arith,
}
use yetanotheros.Common.Outcome.{ok}
use yetanotheros.Fat.Volume.{
  Device, fat32, FatBootsec, FatSuper, fat_first_sector_of_cluster, first_sector_of_cluster,
  fat_create_super, fat_type_of,
}
use yetanotheros.Fat.Table.{fat_ok, fat_last_cluster, fat_bad_cluster, fat_read_fat}
use yetanotheros.Fat.Read.{read_bytes, follow, fat_read, read_clusters, read_blocks}
use yetanotheros.Fat.Entry.{FatResult, byte_at, short_name, entry_index, fat_read_entry}
use yetanotheros.Fat.TableLaws.{Shows, Stores, fat_read_fat-fat32}
use yetanotheros.Fat.ReadLaws.{fat_read-first_sector}
use yetanotheros.Fat.EntryLaws.{Slots, Unused, IsShort, fat_read_entry-short}

abbrev pub bootsec : FatBootsec
bootsec = record {
  label16_is_fat = false;
  label32_is_fat = true;
  bytes_per_sector = 512;
  sectors_per_cluster = 1;
  reserved_sector_count = 32;
  table_count = 2;
  root_entry_count = 0;
  total_sectors_16 = 0;
  table_size_16 = 0;
  total_sectors_32 = 100000;
  table_size_32 = 800;
  root_cluster = 2;
}

abbrev pub volume : FatSuper
volume = record {
  bs = bootsec;
  type = fat32;
  num_sectors = 100000;
  fat_size = 800;
  num_root_dir_sectors = 0;
  first_data_sector = 1632;
  first_fat_sector = 32;
  num_data_sectors = 98368;
  num_clusters = 98368;
  first_root_dir_sector = 1632;
  entries_per_cluster = 16;
  bytes_per_cluster = 512;
  root_attributes = 20;
  root_cluster_high = 0;
  root_cluster_low = 2;
}

-- Mounting computes this volume from its boot sector.
mounts : fat_create_super bootsec 512 ≡ ok (some volume)
unfolding fat_create_super fat_type_of first_sector_of_cluster
mounts = refl

-- Every entry of the table is 0, and every byte of the device.
abbrev blank : Device
blank = λ sector off. 0

blank-Shows : Shows volume blank (λ p. 0)
blank-Shows p = refl

blank-Stores : Stores (λ p. 0) (λ c. 0)
blank-Stores c = (omega arith, refl, refl, refl, refl)

fat_read_fat-fat32_example :
    ((fat_read_fat volume blank 0 2).1 ≡ 0 % 2 ^ 28)
    × (0x0fff_fff8 ≤ 0 % 2 ^ 28 → (fat_read_fat volume blank 0 2).0 ≡ fat_last_cluster)
    × (0 % 2 ^ 28 ≡ 0x0fff_fff7 → (fat_read_fat volume blank 0 2).0 ≡ fat_bad_cluster)
    × (0 % 2 ^ 28 < 0x0fff_fff7 → (fat_read_fat volume blank 0 2).0 ≡ fat_ok)
fat_read_fat-fat32_example =
    fat_read_fat-fat32 volume blank (λ p. 0) (λ c. 0) 128 0 2 refl refl (omega arith) blank-Shows
      blank-Stores (omega arith) (omega arith)

-- The first entry of the root directory is not in use, the second is the file A.
abbrev pub directory : Device
directory sector off =
    if sector == 1632
    then (if off == 0 then 0xe5 else if off == 32 then 65 else if off / 32 == 1 then 32 else 0)
    else 0

root-follow : follow volume directory (32 / 512) 2 ≡ some 2
unfolding follow
root-follow = refl

fat_read-first_sector_example :
    fat_read volume directory 2 32 32
    ≡ ok (some (read_bytes directory (fat_first_sector_of_cluster volume 2) (32 % 512) 32))
fat_read-first_sector_example =
    fat_read-first_sector volume directory 2 2 32 32 (omega arith) root-follow (omega arith)
      (omega arith)

abbrev unused_slot : List ℕ
unused_slot = read_bytes directory 1632 0 32

abbrev pub file_slot : List ℕ
file_slot = read_bytes directory 1632 32 32

slots : Slots volume directory 2 0 (unused_slot ∷ (file_slot ∷ []))
unfolding fat_read follow read_clusters read_blocks first_sector_of_cluster read_bytes
slots = (refl, (refl, tt))

unused : Unused (unused_slot ∷ [])
unfolding read_bytes byte_at
unused = (refl, tt)

short : IsShort file_slot
unfolding read_bytes byte_at
short = record { in_directory = omega arith; in_use = omega arith; no_part = omega arith }

abbrev pub before : FatResult
before = record { dir_cluster = 0; entry = []; lfn = [] }

fat_read_entry-short_example :
    fat_read_entry 2 volume directory 2 0 before
    ≡ ok (
      record { dir_cluster = 2; entry = file_slot; lfn = short_name [] file_slot },
      entry_index (0 + 1 + 1),
    )
fat_read_entry-short_example =
    fat_read_entry-short 2 volume directory 2 0 before (unused_slot ∷ []) file_slot slots unused
      short (omega arith)
