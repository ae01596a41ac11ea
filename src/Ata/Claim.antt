-- ===== src/Ata/Claim.antt =====
-- What `gen_ata_bd_lock` claims under the spinlock of the cache, and what it keeps.
use yetanotheros.Common.{
  ℕ, suc, ◌-◌, ◌^◌, ◌<◌, ◌≤◌, ◌≡◌, ◌≢◌, inl, inr, Bool, true, false, List, [], ◌∷◌, arith, length,
  ◌==◌, ◌&&◌, if◌then◌else◌, Bool-cases, Option-cases, ltb, subst, length-replicate,
}
use yetanotheros.Common.Outcome.{ok, ok-injective, panic-ne-ok}
use yetanotheros.Common.Store.{write}
use yetanotheros.Scheduler.Invariant.{count}
use yetanotheros.Ata.Cache.{
  BlockCache, put_block, uint_max, is_block, find_block, find_lowest, hit_block, reuse_block,
  claim_block, ide_sector_size,
}
use yetanotheros.Ata.Search.{find_block-some, find_block-none}
use yetanotheros.Ata.Sound.{IsSound, IsSound-put}

pub count-le-length : (i : ℕ) (held : List ℕ) → count i held ≤ length held
count-le-length i [] = omega arith
count-le-length i (x ∷ held) = ground (arith, count-le-length i held)

-- One occurrence of an index less.
pub remove : ℕ → List ℕ → List ℕ
remove i [] = []
remove i (x ∷ xs) = if i == x then xs else x ∷ remove i xs

pub count-remove :
    (j i : ℕ) (xs : List ℕ)
    → count j (remove i xs) ≡ (if j == i then count j xs - 1 else count j xs)
unfolding remove
count-remove j i [] = ground arith
count-remove j i (x ∷ xs) = ground (arith, count-remove j i xs)

pub length-remove : (i : ℕ) (xs : List ℕ) → length (remove i xs) ≤ length xs
unfolding remove
length-remove i [] = omega arith
length-remove i (x ∷ xs) = ground (arith, length-remove i xs)

-- What the holders of blocks see of them is the same in both caches.
abbrev pub Keeps : BlockCache → BlockCache → List ℕ → Type 0
Keeps c c' held =
    (j : ℕ)
    → count j held ≢ 0
    → ((c'.blocks j).drive ≡ (c.blocks j).drive)
      × ((c'.blocks j).num ≡ (c.blocks j).num)
      × ((c'.blocks j).is_valid ≡ (c.blocks j).is_valid)
      × ((c'.blocks j).bytes ≡ (c.blocks j).bytes)

abbrev pub Claims : BlockCache → List ℕ → ℕ → ℕ → BlockCache × ℕ → Type 0
Claims c held drive num r =
    IsSound r.0 (r.1 ∷ held)
    × (r.1 < r.0.num_blocks)
    × ((r.0.blocks r.1).drive ≡ drive)
    × ((r.0.blocks r.1).num ≡ num)
    × Keeps c r.0 held

abbrev pub lowest : BlockCache → ℕ
lowest c = find_lowest c.num_blocks 0 uint_max c.num_blocks c.blocks

abbrev pub lowest_taken : BlockCache → Bool
lowest_taken c = ltb (lowest c) c.num_blocks && (c.blocks (lowest c)).ref == 0

module _ (c : BlockCache) (held : List ℕ) (drive num : ℕ) (v : IsSound c held)
    (room : suc (length held) < 2 ^ 32) where
  hit-IsSound :
      (i : ℕ)
      → i < c.num_blocks
      → is_block (c.blocks i) drive num ≡ true
      → ((j : ℕ) → 0 ≤ j → j < i → is_block (c.blocks j) drive num ≡ false)
      → IsSound (put_block c i (hit_block (c.blocks i))) (i ∷ held)
  hit-IsSound i here found before =
      IsSound-put c held (i ∷ held) i (hit_block (c.blocks i)) v here
        (λ k lt eq. ground (arith, before k (omega arith) lt))
        (λ j lt bound eq. v.first i j lt bound eq) (v.sized i)
        (ground (arith, v.counted i, count-le-length i held)) (λ j ne. ground arith) room

  reuse-IsSound :
      (i : ℕ)
      → i < c.num_blocks
      → (c.blocks i).ref ≡ 0
      → ((j : ℕ) → j < c.num_blocks → is_block (c.blocks j) drive num ≡ false)
      → IsSound (put_block c i (reuse_block (c.blocks i) drive num)) (i ∷ held)
  reuse-IsSound i here free absent =
      IsSound-put c held (i ∷ held) i (reuse_block (c.blocks i) drive num) v here
        (λ k lt eq. ground (arith, absent k (omega arith)))
        (λ j lt bound eq. ground (arith, absent j bound))
        (length-replicate {A = ℕ} ide_sector_size 0) (ground (arith, v.counted i))
        (λ j ne. ground arith) room

  -- What a lock has claimed: a block of the sector, with no change for the holders of blocks.
  pub claim_block-Claims :
      (r : BlockCache × ℕ) → claim_block c drive num ≡ ok r → Claims c held drive num r
  unfolding claim_block write
  claim_block-Claims r e = elim (Option-cases (find_block c.num_blocks 0 drive num c.blocks)) [
    | inr (i, found) ↦
        let (low, high, here, before) = find_block-some c.num_blocks 0 drive num c.blocks i found in
        subst (Claims c held drive num) (ok-injective (rw (found, claim_block) at e)) (
          hit-IsSound i (omega arith) here before,
          omega arith,
          ground arith,
          ground arith,
          λ j used. ground arith,
        )
    | inl none_found ↦ elim (Bool-cases (lowest_taken c)) [
      | inr n ↦ absurd (panic-ne-ok (rw (none_found, n, claim_block) at e))
      | inl y ↦
          subst (Claims c held drive num) (ok-injective (rw (none_found, y, claim_block) at e)) (
            reuse-IsSound (lowest c) (ground arith) (ground arith) (λ j lt.
                find_block-none c.num_blocks 0 drive num c.blocks j none_found (omega arith)
                  (omega arith)),
            ground arith,
            ground arith,
            ground arith,
            λ j used. ground (arith, v.counted j),
          )
    ]
  ]
