-- ===== src/Block/Tests.antt =====
-- A disk with one partition, and the theorem about it there.
use yetanotheros.Common.{
  ℕ, ◌≡◌, ◌⊎◌, refl, true, some, none, [], ◌∷◌, ◌==◌, if◌then◌else◌, get_elem?, arith,
}
use yetanotheros.Common.Outcome.{ok}
use yetanotheros.Block.Devices.{
  BlockDev, done, stopped, Slots, bdev_add, bdev_get, mbr_create_partition, mbr_part_bd_lock,
}
use yetanotheros.Block.Scan.{Grows}
use yetanotheros.Block.Registry.{bdev_add-Grows}

-- Entry 0 is present, from sector 1, with 8 sectors.
abbrev disk : BlockDev
disk = record {
  name = 97 ∷ 98 ∷ [];
  valid = true;
  block_size = 512;
  num_blocks = 100;
  lock = λ num. ok num;
  unlock = λ idx. ok tt;
  read = λ idx i. ok (
      if idx == 0
      then (if i == 510
          then 0x55
          else if i == 511
          then 0xaa
          else if i == 446
          then 0x80
          else if i == 454
          then 1
          else if i == 458
          then 8
          else 0)
      else 0);
}

abbrev slots : Slots
slots = none ∷ none ∷ none ∷ none ∷ none ∷ none ∷ none ∷ none ∷ []

bdev_add-Grows_example :
    (bdev_add 9 disk slots ≡ stopped)
    ⊎ ((s : Slots) × (bdev_add 9 disk slots ≡ done s)
        × Grows slots s
        × ((i : ℕ) × (get_elem? slots i ≡ some none) × (get_elem? s i ≡ some (some disk)))
        × ((d : BlockDev) × (bdev_get (97 ∷ 98 ∷ []) s ≡ ok (some d)) × (d.name ≡ 97 ∷ 98 ∷ [])))
bdev_add-Grows_example = bdev_add-Grows 9 disk slots (omega arith) (omega arith)

-- The disk and its partition are then registered.
registered :
    bdev_add 9 disk slots
    ≡ done (
        some disk
        ∷ some (mbr_create_partition disk 0 1 8)
        ∷ none
        ∷ none
        ∷ none
        ∷ none
        ∷ none
        ∷ none
        ∷ [])
unfolding bdev_add mbr_create_partition mbr_part_bd_lock
registered = refl
