-- ===== src/Block/Scan.antt =====
-- Looking for partitions, where adding a device ends.
use yetanotheros.Common.{
  ℕ, zero, suc, ◌+◌, ◌*◌, ◌%◌, ◌^◌, ◌≤◌, ◌≡◌, refl, Bool, true, false, not, none, some, [], ◌∷◌,
  ◌==◌, if◌then◌else◌, ltb, get_elem?, arith,
}
use yetanotheros.Common.Outcome.{Outcome, ok, panic}
use yetanotheros.Block.Devices.{
  BlockDev, Run, done, stopped, unfinished, run, then_run, Slots, part_status, lba_first,
  part_sectors, mbr_part_present, mbr_sector_size, mbr_boot_signature, mbr_create_partition,
  mbr_handle_partition, handle_partitions, read_sector, read_block, mbr_table_scan,
}

abbrev pub vacancies : Slots → ℕ
vacancies [] = 0
vacancies (none ∷ slots) = suc (vacancies slots)
vacancies (some d ∷ slots) = vacancies slots

-- The devices of the first slots stand in the second ones, in the same places.
pub record Grows (slots slots' : Slots) : Type 0 where
  pub stays :
      (i : ℕ) (d : BlockDev)
      → get_elem? slots i ≡ some (some d)
      → get_elem? slots' i ≡ some (some d)
  pub fewer : vacancies slots' ≤ vacancies slots

pub Grows-refl : (slots : Slots) → Grows slots slots
Grows-refl slots = record { stays = λ i d e. e; fewer = omega arith }

pub Grows-trans : (a b c : Slots) → Grows a b → Grows b c → Grows a c
Grows-trans a b c g h = record {
  stays = λ i d e. h.stays i d (g.stays i d e);
  fewer = omega (arith, g.fewer, h.fewer);
}

-- A call on slots that is not cut short by fuel
abbrev pub Ends : Slots → Run Slots → Type 0
Ends slots (done s) = Grows slots s
Ends slots stopped = Unit {0}
Ends slots unfinished = ⊥

abbrev pub EndsWith : Slots → Run (Slots × Bool) → Type 0
EndsWith slots (done r) = Grows slots r.0
EndsWith slots stopped = Unit {0}
EndsWith slots unfinished = ⊥

then-EndsWith :
    (slots : Slots) (m : Run Slots)
    → Ends slots m
    → EndsWith slots (then_run m (λ s. done (s, true)))
then-EndsWith slots (done s) h = h
then-EndsWith slots stopped h = tt
then-EndsWith slots unfinished h = h

-- Reading a sector is not cut short.
read_sector-ne-unfinished :
    (len : ℕ) (bytes : ℕ → Outcome ℕ) → ¬ (read_sector len bytes ≡ unfinished)
unfolding read_sector
read_sector-ne-unfinished zero bytes e = cc
read_sector-ne-unfinished (suc len) bytes e =
    first (bytes len) (read_sector len bytes) (read_sector-ne-unfinished len bytes) e
  where
    first :
        (b : Outcome ℕ) (m : Run (ℕ → ℕ))
        → ¬ (m ≡ unfinished)
        → ¬ (
            run {B = ℕ → ℕ} b (λ c. then_run m (λ buf. done (λ i. if i == len then c else buf i)))
            ≡ unfinished)
    first panic m ne e = cc
    first (ok c) (done buf) ne e = cc
    first (ok c) stopped ne e = cc
    first (ok c) unfinished ne e = ne refl

read_block-ne-unfinished : (dev : BlockDev) (idx : ℕ) → ¬ (read_block dev idx ≡ unfinished)
unfolding read_block
read_block-ne-unfinished dev idx =
    unlocked (read_sector dev.block_size (dev.read idx)) (dev.unlock idx)
      (read_sector-ne-unfinished dev.block_size (dev.read idx))
  where
    unlocked :
        (m : Run (ℕ → ℕ)) (u : Outcome (Unit {0}))
        → ¬ (m ≡ unfinished)
        → ¬ (then_run m (λ buf. run {B = ℕ → ℕ} u (λ _. done buf)) ≡ unfinished)
    unlocked (done buf) (ok a) ne e = cc
    unlocked (done buf) panic ne e = cc
    unlocked stopped u ne e = cc
    unlocked unfinished u ne e = ne refl

-- Adding on slots that have so many vacancies at most
abbrev pub AddEnds : ℕ → (BlockDev → Slots → Run Slots) → Type 0
AddEnds n add = (dev : BlockDev) (slots : Slots) → vacancies slots ≤ n → Ends slots (add dev slots)

module _ (n : ℕ) (add : BlockDev → Slots → Run Slots) (ends : AddEnds n add)
    (parent : BlockDev) where
  mbr_handle_partition-EndsWith :
      (buf : ℕ → ℕ) (num : ℕ) (slots : Slots)
      → vacancies slots ≤ n
      → EndsWith slots (mbr_handle_partition add parent buf num slots)
  unfolding mbr_handle_partition
  mbr_handle_partition-EndsWith buf num slots few =
      present (part_status buf num == mbr_part_present) (lba_first buf num == 0)
        (part_sectors buf num == 0)
        (ltb parent.num_blocks ((lba_first buf num + part_sectors buf num) % 2 ^ 32))
    where
      added : EndsWith slots (
          then_run
            (add (mbr_create_partition parent num (lba_first buf num) (part_sectors buf num)) slots)
            (λ s. done (s, true)))
      added = then-EndsWith slots _ (ends _ slots few)

      present :
          (a b c d : Bool)
          → EndsWith slots (
              if not a
              then done (slots, false)
              else if b
              then stopped
              else if c
              then stopped
              else if d
              then stopped
              else then_run
                  (add
                    (mbr_create_partition parent num (lba_first buf num) (part_sectors buf num))
                    slots)
                  (λ s. done (s, true)))
      present false b c d = Grows-refl slots
      present true true c d = tt
      present true false true d = tt
      present true false false true = tt
      present true false false false = added

  handle_partitions-EndsWith :
      (buf : ℕ → ℕ) (num more : ℕ) (slots : Slots)
      → vacancies slots ≤ n
      → EndsWith slots (handle_partitions add parent buf num more slots)
  unfolding handle_partitions
  handle_partitions-EndsWith buf num zero slots few = Grows-refl slots
  handle_partitions-EndsWith buf num (suc more) slots few =
      after (mbr_handle_partition add parent buf num slots)
        (mbr_handle_partition-EndsWith buf num slots few)
        (λ s le. handle_partitions-EndsWith buf (num + 1) more s le)
    where
      after :
          (m : Run (Slots × Bool))
          → EndsWith slots m
          → ((s : Slots)
              → vacancies s ≤ n
              → EndsWith s (handle_partitions add parent buf (num + 1) more s))
          → EndsWith slots (
              then_run m (λ r.
                let rest = handle_partitions add parent buf (num + 1) more r.0 in
                if r.1 then done r else rest))
      after (done (s, true)) g ih = g
      after (done (s, false)) g ih =
          further s g (handle_partitions add parent buf (num + 1) more s)
            (ih s (omega (arith, g.fewer)))
        where
          further :
              (s : Slots)
              → Grows slots s
              → (m : Run (Slots × Bool)) → EndsWith s m
              → EndsWith slots m
          further s g (done r) h = Grows-trans slots s r.0 g h
          further s g stopped h = tt
          further s g unfinished h = h
      after stopped g ih = tt
      after unfinished g ih = g

  pub mbr_table_scan-EndsWith :
      (slots : Slots) → vacancies slots ≤ n → EndsWith slots (mbr_table_scan add parent slots)
  unfolding mbr_table_scan
  mbr_table_scan-EndsWith slots few =
      valid_then parent.valid (parent.block_size == mbr_sector_size) (parent.lock 0)
        (λ idx. read_block parent idx) (λ idx. read_block-ne-unfinished parent idx)
    where
      by_signature :
          (buf : ℕ → ℕ) (b : Bool)
          → EndsWith slots
              (if b then handle_partitions add parent buf 0 4 slots else done (slots, false))
      by_signature buf true = handle_partitions-EndsWith buf 0 4 slots few
      by_signature buf false = Grows-refl slots

      read_then :
          (m : Run (ℕ → ℕ))
          → ¬ (m ≡ unfinished)
          → EndsWith slots (
              then_run m (λ buf.
                if buf 510 + 256 * buf 511 == mbr_boot_signature
                then handle_partitions add parent buf 0 4 slots
                else done (slots, false)))
      read_then (done buf) ne = by_signature buf (buf 510 + 256 * buf 511 == mbr_boot_signature)
      read_then stopped ne = tt
      read_then unfinished ne = absurd (ne refl)

      valid_then :
          (v s : Bool) (l : Outcome ℕ) (rd : ℕ → Run (ℕ → ℕ))
          → ((idx : ℕ) → ¬ (rd idx ≡ unfinished))
          → EndsWith slots (
              if not v
              then done (slots, false)
              else if not s
              then done (slots, false)
              else run l (λ idx. then_run (rd idx) (λ buf.
                if buf 510 + 256 * buf 511 == mbr_boot_signature
                then handle_partitions add parent buf 0 4 slots
                else done (slots, false))))
      valid_then false s l rd ne = Grows-refl slots
      valid_then true false l rd ne = Grows-refl slots
      valid_then true true panic rd ne = tt
      valid_then true true (ok idx) rd ne = read_then (rd idx) (ne idx)
