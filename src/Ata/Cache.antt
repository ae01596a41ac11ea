-- ===== src/Ata/Cache.antt =====
-- kernel/kernel/drivers/ata/generic.c: the block cache and the calls of `struct block_dev`. The
-- spinlock of the cache makes each search one step. The transfer by `ata_pio_read` of
-- kernel/kernel/devices/ata_pio.c takes what the drive answers to the command as an argument.
-- `ata_pio_write` is a stub that answers ATA_ER_UNSUP, so nothing is written to a drive.
use yetanotheros.Common.{
  ℕ, zero, suc, ◌+◌, ◌-◌, ◌%◌, ◌^◌, Bool, true, false, ◌&&◌, ◌||◌, not, Option, none, some, List,
  [], ◌++◌, ◌==◌, if◌then◌else◌, ltb, leb, take, drop, length, replicate,
}
use yetanotheros.Common.Outcome.{Outcome, ok, panic, ◌>>=◌, ◌>>◌, kassert}
use yetanotheros.Common.Store.{write}
use yetanotheros.Scheduler.State.{Sched}
use yetanotheros.Process.Mutex.{
  ThreadMutex, thread_mutex_create, thread_mutex_acquire, thread_mutex_acquire_resume,
  unsafe_mutex_held, thread_mutex_release,
}

abbrev pub ide_sector_size : ℕ
ide_sector_size = 512

abbrev pub uint_max : ℕ
uint_max = 2 ^ 32 - 1

-- `struct block`
pub record Block : Type 0 where
  pub drive : ℕ
  pub num : ℕ
  pub ref : ℕ
  pub hit : ℕ
  pub mutex : ThreadMutex
  pub is_valid : Bool
  pub bytes : List ℕ

-- `struct block_cache`
pub record BlockCache : Type 0 where
  pub num_blocks : ℕ
  pub blocks : ℕ → Block

-- What the calls read of `struct block_dev` and of its `struct ide_drive`
pub record Drive : Type 0 where
  pub valid : Bool
  pub present : Bool
  pub lba : Bool
  pub atapi : Bool
  pub lba48 : Bool
  pub num : ℕ

abbrev pub put_block : BlockCache → ℕ → Block → BlockCache
put_block c i b = record c { blocks = write c.blocks i b }

abbrev pub is_block : Block → ℕ → ℕ → Bool
is_block b drive num = b.num == num && b.drive == drive

-- The first loop of `gen_ata_bd_lock`, over so many blocks from index `i` on
unfoldable pub find_block : ℕ → ℕ → ℕ → ℕ → (ℕ → Block) → Option ℕ
find_block zero i drive num blocks = none
find_block (suc rounds) i drive num blocks =
    if is_block (blocks i) drive num then some i else find_block rounds (suc i) drive num blocks

abbrev pub is_lower : Block → ℕ → Bool
is_lower b min_hits = b.ref == 0 && ltb b.hit min_hits

-- The second loop: the index of an unreferenced block with the lowest hit rate
unfoldable pub find_lowest : ℕ → ℕ → ℕ → ℕ → (ℕ → Block) → ℕ
find_lowest zero i min_hits min_hits_index blocks = min_hits_index
find_lowest (suc rounds) i min_hits min_hits_index blocks =
    find_lowest rounds (suc i) (if is_lower (blocks i) min_hits then (blocks i).hit else min_hits)
      (if is_lower (blocks i) min_hits then i else min_hits_index) blocks

abbrev pub hit_block : Block → Block
hit_block b = record b { ref = (b.ref + 1) % 2 ^ 32; hit = (b.hit + 1) % 2 ^ 32 }

-- A block is taken for another sector.
abbrev pub reuse_block : Block → ℕ → ℕ → Block
reuse_block b drive num = record {
  drive = drive;
  num = num;
  ref = 1;
  hit = 1;
  mutex = thread_mutex_create b.mutex.wait_cond;
  is_valid = false;
  bytes = replicate ide_sector_size 0;
}

-- The part of `gen_ata_bd_lock` under the spinlock
unfoldable pub claim_block : BlockCache → ℕ → ℕ → Outcome (BlockCache × ℕ)
unfolding find_block find_lowest
claim_block c drive num = elim (find_block c.num_blocks 0 drive num c.blocks) [
  | some i ↦ ok (put_block c i (hit_block (c.blocks i)), i)
  | none ↦
      let i : ℕ = find_lowest c.num_blocks 0 uint_max c.num_blocks c.blocks in
      if ltb i c.num_blocks && (c.blocks i).ref == 0
      then ok (put_block c i (reuse_block (c.blocks i) drive num), i)
      else panic
]

abbrev pub put_mutex : BlockCache → ℕ → ThreadMutex → BlockCache
put_mutex c i m = put_block c i (record (c.blocks i) { mutex = m })

-- `gen_ata_bd_lock`: the cache, the scheduler, the index, and whether the mutex was free at once
unfoldable pub gen_ata_bd_lock :
    Drive → ℕ → ℕ → BlockCache → Sched → Outcome (BlockCache × Sched × ℕ × Bool)
unfolding claim_block
gen_ata_bd_lock dp cpu num c s = do
  kassert dp.valid
  kassert dp.present
  r ← claim_block c dp.num num
  m ← thread_mutex_acquire (r.0.blocks r.1).mutex cpu s
  ok (put_mutex r.0 r.1 m.0, m.1, r.1, m.2)

-- The same when its thread is resumed: the mutex is tried again.
unfoldable pub gen_ata_bd_lock_resume :
    ℕ → ℕ → BlockCache → Sched → Outcome (BlockCache × Sched × ℕ × Bool)
gen_ata_bd_lock_resume index cpu c s = do
  m ← thread_mutex_acquire_resume (c.blocks index).mutex cpu s
  ok (put_mutex c index m.0, m.1, index, m.2)

-- What `gen_ata_bd_unlock`, `gen_ata_bd_write` and `gen_ata_bd_read` check first
unfoldable pub check_block : Drive → ℕ → ℕ → BlockCache → Sched → Outcome (Unit {0})
check_block dp cpu index c s = do
  kassert dp.valid
  held ← unsafe_mutex_held (c.blocks index).mutex cpu s
  kassert held
  kassert ((c.blocks index).drive == dp.num)

abbrev pub drop_ref : Block → Block
drop_ref b = record b { ref = (b.ref + uint_max) % 2 ^ 32 }

-- `gen_ata_bd_unlock`
unfoldable pub gen_ata_bd_unlock : Drive → ℕ → ℕ → BlockCache → Sched → Outcome (BlockCache × Sched)
unfolding check_block
gen_ata_bd_unlock dp cpu index c s = do
  check_block dp cpu index c s
  m ← thread_mutex_release (c.blocks index).mutex cpu s
  ok (put_block c index (drop_ref (record (c.blocks index) { mutex = m.0 })), m.1)

abbrev pub filled : Block → List ℕ → Block
filled b sector = record b { bytes = sector; is_valid = true }

-- What `ata_pio_read` returns, as ATA_ER_NOERR, ATA_ER_UNSUP or a status with an error
pub data AtaResult : Type 0 where
  no_error unsupported bad_status : AtaResult

-- `ata_pio_read` of one sector into `buffer`. The drive answers with the sector, or (`none`) with a
-- status that has an error. A drive without 48-bit addresses stops the kernel above 2 ^ 28.
unfoldable pub ata_pio_read : Drive → ℕ → Option (List ℕ) → List ℕ → Outcome (AtaResult × List ℕ)
ata_pio_read dp lba answer buffer =
    if not dp.present || not dp.lba || dp.atapi
    then ok (unsupported, buffer)
    else kassert (ltb (lba + 1) (2 ^ 28) || dp.lba48)
      >> elim answer [ none ↦ ok (bad_status, buffer) | some sector ↦ ok (no_error, sector) ]

-- `gen_ata_read_block`: what is in `dest` afterwards; the result of the transfer is ignored.
unfoldable pub gen_ata_read_block : Drive → ℕ → Option (List ℕ) → List ℕ → Outcome (List ℕ)
unfolding ata_pio_read
gen_ata_read_block dp lba answer dest = ata_pio_read dp lba answer dest >>= λ r. ok r.1

-- A block that is not valid is read, and is valid afterwards.
unfoldable pub fill_block : Drive → ℕ → Option (List ℕ) → BlockCache → Outcome BlockCache
unfolding gen_ata_read_block
fill_block dp index answer c =
    let b = c.blocks index in
    if b.is_valid
    then ok c
    else gen_ata_read_block dp b.num answer b.bytes >>= λ bytes.
        ok (put_block c index (filled b bytes))

abbrev pub check_range : ℕ → ℕ → Outcome (Unit {0})
check_range off len =
    kassert (ltb off ide_sector_size) >> kassert (leb ((off + len) % 2 ^ 32) ide_sector_size)

-- Bytes written over a part of a sector
unfoldable pub overwrite : List ℕ → ℕ → List ℕ → List ℕ
overwrite sector off src = take off sector ++ src ++ drop (off + length src) sector

-- `kmemcpy` into the block; the call of `ata_pio_write` after it does nothing.
unfoldable pub store_block : BlockCache → ℕ → ℕ → List ℕ → BlockCache
unfolding overwrite
store_block c index off src =
    let b = c.blocks index in put_block c index (record b { bytes = overwrite b.bytes off src })

-- `gen_ata_bd_write` of the bytes `src`
unfoldable pub gen_ata_bd_write :
    Drive → ℕ → ℕ → ℕ → List ℕ → Option (List ℕ) → BlockCache → Sched → Outcome BlockCache
unfolding check_block fill_block store_block
gen_ata_bd_write dp cpu index off src answer c s = do
  check_block dp cpu index c s
  if length src == 0 then ok c else do
    c1 ← fill_block dp index answer c
    check_range off (length src)
    ok (store_block c1 index off src)

-- `gen_ata_bd_read`: the bytes that it puts into `dest`
unfoldable pub gen_ata_bd_read :
    Drive → ℕ → ℕ → ℕ → ℕ → Option (List ℕ) → BlockCache → Sched → Outcome (BlockCache × List ℕ)
unfolding check_block fill_block
gen_ata_bd_read dp cpu index off len answer c s = do
  check_block dp cpu index c s
  if len == 0 then ok (c, []) else do
    c1 ← fill_block dp index answer c
    check_range off len
    ok (c1, take len (drop off (c1.blocks index).bytes))
