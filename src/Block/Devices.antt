-- ===== src/Block/Devices.antt =====
-- kernel/kernel/block/mbr.c and registry.c. A device is what its functions do for a reader; the
-- registry is the list of its slots, and its spinlock makes each look at it one step.
use yetanotheros.Common.{
  ℕ, zero, suc, ◌+◌, ◌-◌, ◌*◌, ◌%◌, ◌^◌, Bool, true, false, ◌&&◌, not, Option, none, some, List, [],
  ◌∷◌, ◌++◌, ◌==◌, if◌then◌else◌, leb, ltb, length, take,
}
use yetanotheros.Common.Outcome.{Outcome, ok, panic}
use yetanotheros.Paging.Words.{load32}

-- `struct block_dev`: `lock` gives an index, at which `read` finds the bytes of the block.
pub record BlockDev : Type 0 where
  pub name : List ℕ
  pub valid : Bool
  pub block_size : ℕ
  pub num_blocks : ℕ
  pub lock : ℕ → Outcome ℕ
  pub read : ℕ → ℕ → Outcome ℕ
  pub unlock : ℕ → Outcome (Unit {0})

-- A call returns, stops the machine, or is not finished when the fuel runs out.
pub data Run {ℓ} (A : Type ℓ) : Type ℓ where
  done : A → Run A
  stopped : Run A
  unfinished : Run A

abbrev pub run {ℓ κ} : {A : Type ℓ} {B : Type κ} → Outcome A → (A → Run B) → Run B
run (ok a) f = f a
run panic f = stopped

abbrev pub then_run {ℓ κ} : {A : Type ℓ} {B : Type κ} → Run A → (A → Run B) → Run B
then_run (done a) f = f a
then_run stopped f = stopped
then_run unfinished f = unfinished

abbrev pub mbr_part_present : ℕ
mbr_part_present = 0x80

abbrev pub mbr_boot_signature : ℕ
mbr_boot_signature = 0xaa55

abbrev pub mbr_sector_size : ℕ
mbr_sector_size = 512

abbrev pub bdev_max_name_length : ℕ
bdev_max_name_length = 32

-- `mbr_part_bd_lock` of a valid partition: it does not look at the size.
unfoldable pub mbr_part_bd_lock : BlockDev → ℕ → ℕ → Outcome ℕ
mbr_part_bd_lock parent offset num = parent.lock ((num + offset) % 2 ^ 32)

-- `mbr_create_partition`, for the partitions 0 to 3
unfoldable pub mbr_create_partition : BlockDev → ℕ → ℕ → ℕ → BlockDev
mbr_create_partition parent part_num offset size = record {
  name = take (bdev_max_name_length - 1) (parent.name ++ (58 ∷ (48 + part_num) ∷ []));
  valid = true;
  block_size = parent.block_size;
  num_blocks = size;
  lock = mbr_part_bd_lock parent offset;
  read = parent.read;
  unlock = parent.unlock;
}

-- The slots of `block_devices`
abbrev pub Slots : Type 0
Slots = List (Option BlockDev)

-- The fields of entry `num` of the table in a sector
abbrev pub entry_at : ℕ → ℕ
entry_at num = 446 + 16 * num

abbrev pub part_status : (ℕ → ℕ) → ℕ → ℕ
part_status buf num = buf (entry_at num)

abbrev pub lba_first : (ℕ → ℕ) → ℕ → ℕ
lba_first buf num = load32 buf (entry_at num + 8)

abbrev pub part_sectors : (ℕ → ℕ) → ℕ → ℕ
part_sectors buf num = load32 buf (entry_at num + 12)

-- `mbr_handle_partition`, where `add` is `bdev_add`
unfoldable pub mbr_handle_partition :
    (BlockDev → Slots → Run Slots) → BlockDev → (ℕ → ℕ) → ℕ → Slots → Run (Slots × Bool)
unfolding load32
mbr_handle_partition add parent buf num slots =
    if not (part_status buf num == mbr_part_present)
    then done (slots, false)
    else if lba_first buf num == 0
    then stopped
    else if part_sectors buf num == 0
    then stopped
    else if ltb parent.num_blocks ((lba_first buf num + part_sectors buf num) % 2 ^ 32)
    then stopped
    else then_run
        (add (mbr_create_partition parent num (lba_first buf num) (part_sectors buf num)) slots)
        (λ s. done (s, true))

-- The entries from `num` on, of so many: after the first partition that is handled, `||` leaves the
-- others out.
unfoldable pub handle_partitions :
    (BlockDev → Slots → Run Slots) → BlockDev → (ℕ → ℕ) → ℕ → ℕ → Slots → Run (Slots × Bool)
unfolding mbr_handle_partition
handle_partitions add parent buf num zero slots = done (slots, false)
handle_partitions add parent buf num (suc more) slots =
    then_run (mbr_handle_partition add parent buf num slots) (λ r.
      let rest = handle_partitions add parent buf (num + 1) more r.0 in
      if r.1 then done r else rest)

-- The first sector of a device, byte by byte
unfoldable pub read_sector : ℕ → (ℕ → Outcome ℕ) → Run (ℕ → ℕ)
read_sector zero bytes = done (λ i. 0)
read_sector (suc len) bytes =
    run (bytes len)
      (λ b. then_run (read_sector len bytes) (λ buf. done (λ i. if i == len then b else buf i)))

-- A block that is locked is read as a whole and unlocked.
unfoldable pub read_block : BlockDev → ℕ → Run (ℕ → ℕ)
unfolding read_sector
read_block bdev idx =
    then_run (read_sector bdev.block_size (bdev.read idx))
      (λ buf. run (bdev.unlock idx) (λ _. done buf))

-- `mbr_table_scan`, where `add` is `bdev_add`
unfoldable pub mbr_table_scan :
    (BlockDev → Slots → Run Slots) → BlockDev → Slots → Run (Slots × Bool)
unfolding handle_partitions read_block
mbr_table_scan add bdev slots =
    if not bdev.valid
    then done (slots, false)
    else if not (bdev.block_size == mbr_sector_size)
    then done (slots, false)
    else run (bdev.lock 0) (λ idx. then_run (read_block bdev idx) (λ buf.
      if buf 510 + 256 * buf 511 == mbr_boot_signature
      then handle_partitions add bdev buf 0 4 slots
      else done (slots, false)))

-- The loop of `bdev_add`: the first vacant slot
unfoldable pub place : BlockDev → Slots → Option Slots
place dev [] = none
place dev (none ∷ slots) = some (some dev ∷ slots)
place dev (some d ∷ slots) = elim (place dev slots) [ none ↦ none | some s ↦ some (some d ∷ s) ]

-- `bdev_add`, which looks for partitions on the device and adds those
unfoldable pub bdev_add : ℕ → BlockDev → Slots → Run Slots
unfolding place mbr_table_scan
bdev_add zero dev slots = unfinished
bdev_add (suc fuel) dev slots = elim (place dev slots) [
  | none ↦ stopped
  | some s ↦ then_run (mbr_table_scan (bdev_add fuel) dev s) (λ r. done r.0)
]

-- `kstrncmp` of as many characters as both have
abbrev pub same_name : List ℕ → List ℕ → Bool
same_name [] [] = true
same_name [] (y ∷ ys) = false
same_name (x ∷ xs) [] = false
same_name (x ∷ xs) (y ∷ ys) = x == y && same_name xs ys

-- The loop of `bdev_get`
unfoldable pub find_dev : List ℕ → Slots → Option BlockDev
find_dev name [] = none
find_dev name (none ∷ slots) = find_dev name slots
find_dev name (some d ∷ slots) =
    if length name == length d.name && same_name d.name name then some d else find_dev name slots

-- `bdev_get`
unfoldable pub bdev_get : List ℕ → Slots → Outcome (Option BlockDev)
unfolding find_dev
bdev_get name slots =
    if leb bdev_max_name_length (length name) then panic else ok (find_dev name slots)
