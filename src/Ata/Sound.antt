-- ===== src/Ata/Sound.antt =====
-- What holds of the block cache between two calls: each block counts its holders, at most one
-- block of a sector is in use, and every block has the bytes of a sector.
use yetanotheros.Common.{
  ℕ, ◌^◌, ◌<◌, ◌≡◌, ◌≢◌, inl, inr, refl, sym, false, List, arith, length, ◌==◌, ◌∙◌, Bool-cases,
  ==→eq, ==→ne, ne→==,
}
use yetanotheros.Common.Store.{write}
use yetanotheros.Scheduler.Invariant.{count}
use yetanotheros.Process.Mutex.{ThreadMutex}
use yetanotheros.Ata.Cache.{Block, BlockCache, put_block, put_mutex, ide_sector_size}

abbrev pub SameSector : Block → Block → Type 0
SameSector a b = (a.drive ≡ b.drive) × (a.num ≡ b.num)

-- Neither valid nor in use.
abbrev pub IsIdle : Block → Type 0
IsIdle b = (b.is_valid ≡ false) × (b.ref ≡ 0)

-- `held` are the indices that callers hold, once for each lock that is not unlocked.
pub record IsSound (c : BlockCache) (held : List ℕ) : Type 0 where
  pub first :
      (i j : ℕ)
      → i < j
      → j < c.num_blocks
      → SameSector (c.blocks i) (c.blocks j)
      → IsIdle (c.blocks j)
  pub counted : (i : ℕ) → (c.blocks i).ref ≡ count i held
  pub inside : (i : ℕ) → count i held ≢ 0 → i < c.num_blocks
  pub few : length held < 2 ^ 32
  pub sized : (i : ℕ) → length (c.blocks i).bytes ≡ ide_sector_size

module _ (c : BlockCache) (held held' : List ℕ) (i : ℕ) (b : Block) (v : IsSound c held)
    (here : i < c.num_blocks) (alone : (k : ℕ) → k < i → ¬ SameSector (c.blocks k) b)
    (later : (j : ℕ) → i < j → j < c.num_blocks → SameSector b (c.blocks j) → IsIdle (c.blocks j))
    (whole : length b.bytes ≡ ide_sector_size) (refs : b.ref ≡ count i held')
    (others : (j : ℕ) → j ≢ i → count j held' ≡ count j held)
    (bounded : length held' < 2 ^ 32) where
  put-first :
      (k j : ℕ)
      → k < j
      → j < c.num_blocks
      → SameSector (write c.blocks i b k) (write c.blocks i b j)
      → IsIdle (write c.blocks i b j)
  unfolding write
  put-first k j lt bound eq = elim (Bool-cases (j == i)) [
    | inl at_j ↦ absurd (
        alone k (omega (arith, ==→eq j i at_j))
          (rw (at_j, ne→== k i (omega (arith, ==→eq j i at_j))) at eq))
    | inr not_j ↦ elim (Bool-cases (k == i)) [
      | inl at_k ↦ rw not_j (later j (omega (arith, ==→eq k i at_k)) bound (rw (not_j, at_k) at eq))
      | inr not_k ↦ rw not_j (v.first k j lt bound (rw (not_j, not_k) at eq))
    ]
  ]

  put-counted : (j : ℕ) → (write c.blocks i b j).ref ≡ count j held'
  unfolding write
  put-counted j = elim (Bool-cases (j == i)) [
    | inl y ↦ rw y (rw (==→eq j i y) refs)
    | inr n ↦ rw n (rw (others j (==→ne j i n)) (v.counted j))
  ]

  put-sized : (j : ℕ) → length (write c.blocks i b j).bytes ≡ ide_sector_size
  unfolding write
  put-sized j = elim (Bool-cases (j == i)) [ inl y ↦ rw y whole | inr n ↦ rw n (v.sized j) ]

  put-inside : (j : ℕ) → count j held' ≢ 0 → j < c.num_blocks
  put-inside j some_hold = elim (Bool-cases (j == i)) [
    | inl y ↦ rw (==→eq j i y) here
    | inr n ↦ v.inside j (rw (others j (==→ne j i n)) at some_hold)
  ]

  pub IsSound-put : IsSound (put_block c i b) held'
  IsSound-put = record {
    first = put-first;
    counted = put-counted;
    inside = put-inside;
    few = bounded;
    sized = put-sized;
  }

-- Another mutex makes no difference.
module _ (c : BlockCache) (held : List ℕ) (i : ℕ) (m : ThreadMutex) (v : IsSound c held) where
  mutex-fields :
      (j : ℕ)
      → ((put_mutex c i m).blocks j)
        ≡ record (c.blocks j) { mutex = ((put_mutex c i m).blocks j).mutex }
  unfolding write
  mutex-fields j = elim (Bool-cases (j == i)) [
    | inl y ↦ rw (y, ==→eq j i y) refl
    | inr n ↦ rw n refl
  ]

  pub IsSound-mutex : IsSound (put_mutex c i m) held
  IsSound-mutex = record {
    first = λ k j lt bound eq.
        rw (mutex-fields j) (v.first k j lt bound (rw (mutex-fields k, mutex-fields j) at eq));
    counted = λ j. rw (mutex-fields j) (v.counted j);
    inside = v.inside;
    few = v.few;
    sized = λ j. rw (mutex-fields j) (v.sized j);
  }

module _ (c : BlockCache) (held : List ℕ) (i : ℕ) (v : IsSound c held)
    (used : count i held ≢ 0) where
  -- A block in use is the first of its sector.
  pub held-first : (k : ℕ) → k < i → ¬ SameSector (c.blocks k) (c.blocks i)
  held-first k lt eq = used (sym (v.counted i) ∙ (v.first k i lt (v.inside i used) eq).1)
