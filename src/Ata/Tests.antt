-- ===== src/Ata/Tests.antt =====
-- A small block cache: two blocks, of which one is in use.
use yetanotheros.Common.{
  Option, List, ℕ, ◌≡◌, ◌↔◌, ◌<◌, refl, true, false, none, some, [], ◌∷◌, arith, replicate, ◌==◌,
  if◌then◌else◌, length-replicate,
}
use yetanotheros.Common.Outcome.{ok, panic}
use yetanotheros.Common.Store.{write}
use yetanotheros.Scheduler.State.{Sched, proc_ready, running}
use yetanotheros.Scheduler.Loop.{empty_thread}
use yetanotheros.Process.Mutex.{
  ThreadMutex, thread_mutex_create, thread_mutex_acquire, unsafe_mutex_held,
}
use yetanotheros.Ata.Cache.{
  Block, BlockCache, Drive, ide_sector_size, put_block, put_mutex, reuse_block, filled, store_block,
  claim_block, gen_ata_bd_lock, gen_ata_bd_read, gen_ata_bd_write,
}
use yetanotheros.Ata.Sound.{IsSound}
use yetanotheros.Ata.Steps.{IsFresh, CacheReach, start, next, lock, CacheReach-IsSound}
use yetanotheros.Ata.Disk.{
  WritesBack, Locks, gen_ata_bd_lock-Locks, CanTake, gen_ata_bd_write-read, claim_block-panic,
}

-- The thread at 5, with tid 7, runs on CPU 0.
abbrev lone : Sched
lone = record {
  thread = λ t. if t == 5 then some (record empty_thread { tid = 7; state = running }) else none;
  proc = λ p. record { pid = 0; parent = 0; state = proc_ready; exit_status = 0; threads = [] };
  processes = 0 ∷ [];
  queue = [];
  next_pid = 1;
  next_tid = 8;
  num_waiting = λ c. 0;
  ticks = 0;
  current = λ cpu. if cpu == 0 then some 5 else none;
}

abbrev free_mutex : ThreadMutex
free_mutex = record { wait_cond = 40; locked = false; tid = 0 }

abbrev zero_block : Block
zero_block = record {
  drive = 0;
  num = 0;
  ref = 0;
  hit = 0;
  mutex = free_mutex;
  is_valid = false;
  bytes = replicate ide_sector_size 0;
}

-- Two blocks
abbrev fresh_cache : BlockCache
fresh_cache = record { num_blocks = 2; blocks = λ i. zero_block }

abbrev drive0 : Drive
drive0 = record { valid = true; present = true; lba = true; atapi = false; lba48 = false; num = 0 }

fresh_cache-IsFresh : IsFresh fresh_cache
fresh_cache-IsFresh = record { unused = λ i. (refl, refl); sized = λ i. refl }

-- Sector 7 is locked by the thread.
abbrev locked_cache : BlockCache
locked_cache =
    put_mutex (put_block fresh_cache 0 (reuse_block zero_block 0 7)) 0
      (record { wait_cond = 40; locked = true; tid = 7 })

lock_runs : gen_ata_bd_lock drive0 0 7 fresh_cache lone ≡ ok (locked_cache, lone, 0, true)
unfolding gen_ata_bd_lock claim_block thread_mutex_acquire thread_mutex_create write
lock_runs = refl

locked_reached : CacheReach locked_cache (0 ∷ [])
locked_reached =
    next (start fresh_cache-IsFresh) (lock drive0 0 7 0 lone lone true (omega arith) lock_runs)

CacheReach-IsSound_example : IsSound locked_cache (0 ∷ [])
CacheReach-IsSound_example = CacheReach-IsSound locked_reached

gen_ata_bd_lock-Locks_example : Locks fresh_cache [] 0 7 (locked_cache, lone, 0, true)
gen_ata_bd_lock-Locks_example =
    gen_ata_bd_lock-Locks drive0 0 7 fresh_cache lone [] (locked_cache, lone, 0, true)
      (CacheReach-IsSound (start fresh_cache-IsFresh)) (omega arith) lock_runs

abbrev filled_cache : BlockCache
filled_cache =
    put_block locked_cache 0 (filled (locked_cache.blocks 0) (replicate ide_sector_size 7))

-- The drive answers with a sector that has 7 in every byte.
abbrev sevens : Option (List ℕ)
sevens = some (replicate ide_sector_size 7)

read_runs :
    gen_ata_bd_read drive0 0 0 10 3 sevens locked_cache lone ≡ ok (filled_cache, 7 ∷ 7 ∷ 7 ∷ [])
unfolding gen_ata_bd_read unsafe_mutex_held write
read_runs = refl

-- The error of a transfer is ignored: the block then counts as valid, with zeros.
failed_read :
    gen_ata_bd_read drive0 0 0 10 3 none locked_cache lone
    ≡ ok (
      put_block locked_cache 0 (filled (locked_cache.blocks 0) (replicate ide_sector_size 0)),
      0 ∷ 0 ∷ 0 ∷ [],
    )
unfolding gen_ata_bd_read unsafe_mutex_held write
failed_read = refl

abbrev written_cache : BlockCache
written_cache = store_block filled_cache 0 10 (1 ∷ 2 ∷ [])

write_runs : gen_ata_bd_write drive0 0 0 10 (1 ∷ 2 ∷ []) sevens locked_cache lone ≡ ok written_cache
unfolding gen_ata_bd_write unsafe_mutex_held write
write_runs = refl

gen_ata_bd_write-read_example :
    WritesBack drive0 0 0 10 (1 ∷ 2 ∷ []) sevens locked_cache lone written_cache
gen_ata_bd_write-read_example =
    gen_ata_bd_write-read drive0 0 0 10 (1 ∷ 2 ∷ []) sevens locked_cache written_cache lone (0 ∷ [])
      (CacheReach-IsSound locked_reached) (length-replicate {A = ℕ} ide_sector_size 7) (omega arith)
      (omega arith) write_runs

-- With a single block, which is in use, there is none for another sector.
claim_block-panic_example :
    (claim_block (record locked_cache { num_blocks = 1 }) 0 8 ≡ panic)
    ↔ ((j : ℕ) → j < 1 → ¬ CanTake (locked_cache.blocks j) 0 8)
claim_block-panic_example = claim_block-panic (record locked_cache { num_blocks = 1 }) 0 8

full : claim_block (record locked_cache { num_blocks = 1 }) 0 8 ≡ panic
unfolding claim_block write
full = refl
