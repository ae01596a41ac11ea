-- ===== src/Ata/Disk.antt =====
-- What callers of the block cache see: the blocks of their sectors, and what they have written.
use yetanotheros.Common.{
  Option, ℕ, suc, ◌+◌, ◌^◌, ◌<◌, ◌≤◌, ◌≡◌, ◌≢◌, ◌↔◌, ◌⊎◌, inl, inr, refl, Bool, true, false, List,
  ◌++◌, arith, length, Bool-cases, Option-cases, sym, ◌∙◌, ap, subst, take, drop, le→ltb,
  take-length-append, drop-length-append, length-take, ne→==,
}
use mathlib.Core.List.{append_assoc}
use yetanotheros.Common.Outcome.{ok, panic, with_bind, ok-injective, panic-ne-ok, kassert, bind_ok}
use yetanotheros.Common.Store.{write, write_self, write_ne}
use yetanotheros.Scheduler.State.{Sched}
use yetanotheros.Process.Mutex.{ThreadMutex, thread_mutex_acquire}
use yetanotheros.Ata.Cache.{
  Block, BlockCache, Drive, put_mutex, uint_max, is_block, is_lower, find_block, gen_ata_bd_lock,
  claim_block, check_block, fill_block, overwrite, store_block, gen_ata_bd_write, gen_ata_bd_read,
  check_range,
}
use yetanotheros.Ata.Search.{
  find_block-none, find_block-some, find_lowest-none, find_lowest-lt, find_lowest-cases,
}
use yetanotheros.Ata.Sound.{IsSound}
use yetanotheros.Ata.Claim.{Keeps, Claims, claim_block-Claims, lowest, lowest_taken}
use yetanotheros.Ata.Transfer.{IsAnswer, fill_block-Fills, Fills-IsFilled, Fills-sized}
use yetanotheros.Ata.Steps.{check_range-inside}

-- What a lock that claims a block says: the index, the sector, and what other holders see.
abbrev pub Locks : BlockCache → List ℕ → ℕ → ℕ → BlockCache × Sched × ℕ × Bool → Type 0
Locks c held drive num r =
    (r.2 < r.0.num_blocks)
    × ((r.0.blocks r.2).drive ≡ drive)
    × ((r.0.blocks r.2).num ≡ num)
    × Keeps c r.0 held

put_mutex-Locks :
    (c c1 : BlockCache) (held : List ℕ) (drive num i : ℕ) (m : ThreadMutex) (s : Sched) (got : Bool)
    → Claims c held drive num (c1, i)
    → Locks c held drive num (put_mutex c1 i m, s, i, got)
unfolding write
put_mutex-Locks c c1 held drive num i m s got (sound, inside, d, n, keeps) =
    (inside, ground arith, ground arith, λ j used. ground (arith, keeps j used))

-- A lock that returns has found or made the block of the sector that it was asked for, and the
-- blocks that others hold keep their sector, their bytes and whether they are valid. There are
-- fewer than 2 ^ 32 holders.
pub gen_ata_bd_lock-Locks :
    (dp : Drive) (cpu num : ℕ) (c : BlockCache) (s : Sched) (held : List ℕ)
    (r : BlockCache × Sched × ℕ × Bool)
    → IsSound c held
    → suc (length held) < 2 ^ 32
    → gen_ata_bd_lock dp cpu num c s ≡ ok r
    → Locks c held dp.num num r
unfolding gen_ata_bd_lock
gen_ata_bd_lock-Locks dp cpu num c s held r v room e = with_bind (kassert dp.valid) _ e λ a _ e1.
    with_bind (kassert dp.present) _ e1 λ b _ e2.
      with_bind (claim_block c dp.num num) _ e2 λ q claimed e3.
        with_bind (thread_mutex_acquire (q.0.blocks q.1).mutex cpu s) _ e3 λ m _ e4.
          subst (Locks c held dp.num num) (ok-injective e4) (
            put_mutex-Locks c q.0 held dp.num num q.1 m.0 m.1 m.2
              (claim_block-Claims c held dp.num num v room q claimed))

overwrite-back :
    (sector src : List ℕ) (off : ℕ)
    → off ≤ length sector
    → take (length src) (drop off (overwrite sector off src)) ≡ src
unfolding overwrite
overwrite-back sector src off inside =
    let rest : List ℕ = drop (off + length src) sector in
    let skipped : length (take off sector) ≡ off = omega (arith, length-take off sector) in
    ap (take (length src)) (
      subst (λ n. drop n ((take off sector ++ src) ++ rest) ≡ src ++ rest) skipped
        (rw (append_assoc (take off sector) src rest)
          (drop-length-append (take off sector) (src ++ rest))))
    ∙ take-length-append src rest

check_block-same :
    (dp : Drive) (cpu i : ℕ) (c c' : BlockCache) (s : Sched)
    → (c'.blocks i).mutex ≡ (c.blocks i).mutex
    → (c'.blocks i).drive ≡ (c.blocks i).drive
    → check_block dp cpu i c' s ≡ check_block dp cpu i c s
unfolding check_block
check_block-same dp cpu i c c' s m d = rw (m, d) refl

fill_block-is_valid :
    (dp : Drive) (i : ℕ) (answer : Option (List ℕ)) (c : BlockCache)
    → (c.blocks i).is_valid ≡ true
    → fill_block dp i answer c ≡ ok c
unfolding fill_block
fill_block-is_valid dp i answer c y = rw y refl

-- A read of some bytes of a valid block
valid_read :
    (dp : Drive) (cpu i off len : ℕ) (answer : Option (List ℕ)) (c : BlockCache) (s : Sched)
    (a b : Unit {0})
    → 0 < len
    → (c.blocks i).is_valid ≡ true
    → check_block dp cpu i c s ≡ ok a
    → check_range off len ≡ ok b
    → gen_ata_bd_read dp cpu i off len answer c s ≡ ok (c, take len (drop off (c.blocks i).bytes))
unfolding gen_ata_bd_read
valid_read dp cpu i off len answer c s a b pos y checked ranged =
    bind_ok _ checked
    ∙ rw (ne→== len 0 (omega arith))
        (bind_ok _ (fill_block-is_valid dp i answer c y) ∙ bind_ok _ ranged)

module _ (c : BlockCache) (i off : ℕ) (src : List ℕ) where
  stored-block :
      (store_block c i off src).blocks i
      ≡ record (c.blocks i) { bytes = overwrite (c.blocks i).bytes off src }
  unfolding store_block
  stored-block = write_self c.blocks i _

  stored-other : (j : ℕ) → j ≢ i → (store_block c i off src).blocks j ≡ c.blocks j
  unfolding store_block
  stored-other j ne = write_ne c.blocks i _ j ne

-- `c'` reads back `src` where it was written over `c`, whatever the drive would answer; the rest of
-- the block is what a read before the write had left in it, and other blocks are as before.
abbrev pub WritesBack :
    Drive → ℕ → ℕ → ℕ → List ℕ → Option (List ℕ) → BlockCache → Sched → BlockCache → Type 0
WritesBack dp cpu i off src answer c s c' =
    ((again : Option (List ℕ))
      → gen_ata_bd_read dp cpu i off (length src) again c' s ≡ ok (c', src))
    × ((c1 : BlockCache) × (fill_block dp i answer c ≡ ok c1)
        × ((c'.blocks i).bytes ≡ overwrite (c1.blocks i).bytes off src))
    × ((j : ℕ) → j ≢ i → c'.blocks j ≡ c.blocks j)

-- A write of some bytes to a locked block that returns can be read back at the same place, without
-- another transfer. The rest of the block keeps what was in it, after it was read if it was not
-- valid, and every other block is as before. The drive answers a sector or an error.
pub gen_ata_bd_write-read :
    (dp : Drive) (cpu i off : ℕ) (src : List ℕ) (answer : Option (List ℕ)) (c c' : BlockCache)
    (s : Sched) (held : List ℕ)
    → IsSound c held
    → IsAnswer answer
    → off + length src < 2 ^ 32
    → 0 < length src
    → gen_ata_bd_write dp cpu i off src answer c s ≡ ok c'
    → WritesBack dp cpu i off src answer c s c'
unfolding gen_ata_bd_write
gen_ata_bd_write-read dp cpu i off src answer c c' s held v fits small some_bytes e =
    with_bind (check_block dp cpu i c s) _ e λ a checked e1.
      with_bind (fill_block dp i answer c) _ (rw (ne→== (length src) 0 (omega arith)) at e1)
        λ c1 fills e2. with_bind (check_range off (length src)) _ e2 λ b ranged e3.
          let filling = fill_block-Fills dp i answer c c1 fits (v.sized i) fills in
          let (mutex, drive, valid, others) = Fills-IsFilled c i c1 filling in
          subst (WritesBack dp cpu i off src answer c s) (ok-injective e3) (
            λ again.
                valid_read dp cpu i off (length src) again (store_block c1 i off src) s a b
                  some_bytes (ap (λ x. x.is_valid) (stored-block c1 i off src) ∙ valid)
                  (check_block-same dp cpu i c (store_block c1 i off src) s
                      (ap (λ x. x.mutex) (stored-block c1 i off src) ∙ mutex)
                      (ap (λ x. x.drive) (stored-block c1 i off src) ∙ drive)
                    ∙ checked)
                  ranged
                ∙ ap (λ x. ok (store_block c1 i off src, x))
                    (ap (λ x. take (length src) (drop off x.bytes)) (stored-block c1 i off src)
                      ∙ overwrite-back (c1.blocks i).bytes src off (
                          omega (
                            arith,
                            Fills-sized c i c1 filling (v.sized i),
                            check_range-inside off (length src) b small ranged,
                          ))),
            (c1, fills, ap (λ x. x.bytes) (stored-block c1 i off src)),
            λ j ne. stored-other c1 i off src j ne ∙ others j ne,
          )

not_true : (b : Bool) → ¬ (b ≡ true) → b ≡ false
not_true b h = elim (Bool-cases b) [ inl y ↦ absurd (h y) | inr n ↦ n ]

-- A block that the lock could take: it has the sector, or nobody refers to it and its hits can
-- still be counted.
abbrev pub CanTake : Block → ℕ → ℕ → Type 0
CanTake b drive num = (is_block b drive num ≡ true) ⊎ (is_lower b uint_max ≡ true)

module _ (c : BlockCache) (drive num : ℕ) where
  -- The lock of a sector that no block can take stops the kernel.
  panic-full :
      ((j : ℕ) → j < c.num_blocks → ¬ CanTake (c.blocks j) drive num)
      → claim_block c drive num ≡ panic
  unfolding claim_block
  panic-full full = elim (Option-cases (find_block c.num_blocks 0 drive num c.blocks)) [
    | inr (i, found) ↦
        let (low, high, here, before) = find_block-some c.num_blocks 0 drive num c.blocks i found in
        absurd (full i (omega arith) (inl here))
    | inl none_found ↦
        rw
          (
            claim_block,
            none_found,
            find_lowest-none c.num_blocks 0 uint_max c.num_blocks c.blocks (λ j low high.
                not_true (is_lower (c.blocks j) uint_max) (λ y. full j (omega arith) (inr y))),
            le→ltb c.num_blocks c.num_blocks (omega arith),
          )
          refl
  ]

  full-panic :
      claim_block c drive num ≡ panic
      → (j : ℕ) → j < c.num_blocks
      → ¬ CanTake (c.blocks j) drive num
  unfolding claim_block
  full-panic e j lt (inl here) =
      elim (Option-cases (find_block c.num_blocks 0 drive num c.blocks)) [
        | inr (i, found) ↦ panic-ne-ok (sym (rw (found, claim_block) at e))
        | inl none_found ↦ cc (
            find_block-none c.num_blocks 0 drive num c.blocks j none_found (omega arith)
              (omega arith))
      ]
  full-panic e j lt (inr free) =
      elim (Option-cases (find_block c.num_blocks 0 drive num c.blocks)) [
        | inr (i, found) ↦ panic-ne-ok (sym (rw (found, claim_block) at e))
        | inl none_found ↦
            let taken : lowest c < c.num_blocks =
              find_lowest-lt c.num_blocks 0 uint_max c.num_blocks c.num_blocks c.blocks
                (omega arith) (inr (j, omega arith, omega arith, free)) in
            let found : lowest_taken c ≡ true =
              ground (arith, find_lowest-cases c.num_blocks 0 uint_max c.num_blocks c.blocks) in
            panic-ne-ok (sym (rw (none_found, found, claim_block) at e))
      ]

  -- The search of `gen_ata_bd_lock` for a block, on a drive that is present, stops the kernel exactly
  -- when no block of the cache has the sector and none can be taken for it.
  pub claim_block-panic :
      (claim_block c drive num ≡ panic)
      ↔ ((j : ℕ) → j < c.num_blocks → ¬ CanTake (c.blocks j) drive num)
  claim_block-panic = (full-panic, panic-full)
