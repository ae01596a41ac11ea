-- ===== src/Ata/Search.antt =====
-- What the two loops of `gen_ata_bd_lock` find.
use yetanotheros.Common.{
  ℕ, zero, suc, ◌+◌, ◌<◌, ◌≤◌, ◌≡◌, ◌⊎◌, inl, inr, refl, true, false, none, some, ◌==◌, arith,
  Bool-cases, ==→eq, eq_of_some,
}
use yetanotheros.Ata.Cache.{Block, is_block, find_block, is_lower, find_lowest}

pub is_block_eq :
    (b : Block) (drive num : ℕ) → is_block b drive num ≡ true → (b.drive ≡ drive) × (b.num ≡ num)
is_block_eq b drive num e = ground arith

pub find_block-some :
    (rounds i drive num : ℕ) (blocks : ℕ → Block) (k : ℕ)
    → find_block rounds i drive num blocks ≡ some k
    → (i ≤ k)
      × (k < i + rounds)
      × (is_block (blocks k) drive num ≡ true)
      × ((j : ℕ) → i ≤ j → j < k → is_block (blocks j) drive num ≡ false)
unfolding find_block
find_block-some zero i drive num blocks k e = cc
find_block-some (suc rounds) i drive num blocks k e =
    elim (Bool-cases (is_block (blocks i) drive num)) [
      | inl y ↦
          let here : i ≡ k = eq_of_some (rw y at e) in
          (omega arith, omega arith, rw (← here) y, λ j low high. absurd (omega arith))
      | inr n ↦
          let (low, high, here, before) =
            find_block-some rounds (suc i) drive num blocks k (rw n at e) in
          (
            omega arith,
            omega arith,
            here,
            λ j from to. elim (Bool-cases (i == j)) [
              | inl same ↦ rw (← ==→eq i j same) n
              | inr other ↦ before j (ground arith) to
            ],
          )
    ]

pub find_block-none :
    (rounds i drive num : ℕ) (blocks : ℕ → Block) (j : ℕ)
    → find_block rounds i drive num blocks ≡ none
    → i ≤ j
    → j < i + rounds
    → is_block (blocks j) drive num ≡ false
unfolding find_block
find_block-none zero i drive num blocks j e low high = absurd (omega arith)
find_block-none (suc rounds) i drive num blocks j e low high =
    elim (Bool-cases (is_block (blocks i) drive num)) [
      | inl y ↦ cc (rw y at e)
      | inr n ↦ elim (Bool-cases (i == j)) [
        | inl here ↦ rw (← ==→eq i j here) n
        | inr there ↦
            find_block-none rounds (suc i) drive num blocks j (rw n at e) (ground arith)
              (omega arith)
      ]
    ]

-- The second loop ends at an index that it was given, or at a block that nobody refers to.
pub find_lowest-cases :
    (rounds i min_hits k : ℕ) (blocks : ℕ → Block)
    → (find_lowest rounds i min_hits k blocks ≡ k)
      ⊎ ((blocks (find_lowest rounds i min_hits k blocks)).ref ≡ 0)
unfolding find_lowest
find_lowest-cases zero i min_hits k blocks = inl refl
find_lowest-cases (suc rounds) i min_hits k blocks =
    elim (Bool-cases (is_lower (blocks i) min_hits)) [
      | inl y ↦ rw y (elim (find_lowest-cases rounds (suc i) (blocks i).hit i blocks) [
        | inl here ↦ inr (rw here (ground arith))
        | inr free ↦ inr free
      ])
      | inr n ↦ rw n (find_lowest-cases rounds (suc i) min_hits k blocks)
    ]

-- If every block is in use, or was hit as often as the bound, the second loop finds none.
pub find_lowest-none :
    (rounds i min_hits k : ℕ) (blocks : ℕ → Block)
    → ((j : ℕ) → i ≤ j → j < i + rounds → is_lower (blocks j) min_hits ≡ false)
    → find_lowest rounds i min_hits k blocks ≡ k
unfolding find_lowest
find_lowest-none zero i min_hits k blocks full = refl
find_lowest-none (suc rounds) i min_hits k blocks full = rw (full i (omega arith) (omega arith)) (
    find_lowest-none rounds (suc i) min_hits k blocks
      (λ j low high. full j (omega arith) (omega arith)))

-- If some block can be taken, the second loop finds one in the cache.
pub find_lowest-lt :
    (rounds i min_hits k n : ℕ) (blocks : ℕ → Block)
    → i + rounds ≤ n
    → (k < n) ⊎ ((j : ℕ) × (i ≤ j) × (j < i + rounds) × (is_lower (blocks j) min_hits ≡ true))
    → find_lowest rounds i min_hits k blocks < n
unfolding find_lowest
find_lowest-lt zero i min_hits k n blocks inside (inl h) = h
find_lowest-lt zero i min_hits k n blocks inside (inr (j, low, high, y)) = absurd (omega arith)
find_lowest-lt (suc rounds) i min_hits k n blocks inside (inl h) =
    elim (Bool-cases (is_lower (blocks i) min_hits)) [
      | inl y ↦ rw y (
          find_lowest-lt rounds (suc i) (blocks i).hit i n blocks (omega arith) (inl (omega arith)))
      | inr no_lower ↦
          rw no_lower (find_lowest-lt rounds (suc i) min_hits k n blocks (omega arith) (inl h))
    ]
find_lowest-lt (suc rounds) i min_hits k n blocks inside (inr (j, low, high, y)) =
    elim (Bool-cases (is_lower (blocks i) min_hits)) [
      | inl here ↦ rw here (
          find_lowest-lt rounds (suc i) (blocks i).hit i n blocks (omega arith) (inl (omega arith)))
      | inr no_lower ↦ elim (Bool-cases (i == j)) [
        | inl same ↦ cc (rw (← ==→eq i j same) at y)
        | inr other ↦ rw no_lower (
            find_lowest-lt rounds (suc i) min_hits k n blocks (omega arith)
              (inr (j, ground arith, omega arith, y)))
      ]
    ]
