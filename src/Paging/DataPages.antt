-- ===== src/Paging/DataPages.antt =====
-- Pages of data in an address space: writing to them leaves the tables as they are.
use yetanotheros.Common.{
  ℕ, zero, suc, ◌+◌, ◌*◌, ◌%◌, ◌^◌, ◌<◌, ◌≤◌, ◌≡◌, ◌≢◌, sym, ap, true, List, [], ◌∷◌, length, take,
  drop, arith,
}
use yetanotheros.Common.Store.{write}
use yetanotheros.Libc.Memory.{Bytes}
use yetanotheros.Paging.Words.{load32, AreBytes}
use yetanotheros.Paging.Tables.{Machine, pte_get_paddr, mask_to_page}
use yetanotheros.Paging.Space.{table, walk, IsSpace, IsSpace-memory, walk-beside}
use yetanotheros.Paging.Reserve.{frame_of}
use yetanotheros.Vfs.Reading.{store_bytes-outside}
use yetanotheros.Vfs.Transfer.{store_bytes}
use yetanotheros.Vm.Layout.{vm_is_static_p}

-- The physical address behind a virtual one
abbrev pub phys : Bytes → ℕ → ℕ → ℕ
phys m pd a = frame_of m pd a + a % 4096

-- The pages of a range are mapped to static pages, each to one of its own that is no table.
pub record IsData (pd from to : ℕ) (s : Machine) : Type 0 where
  pub mapped : (a : ℕ) → from ≤ a → a < to → frame_of s.memory pd a ≢ 0
  pub static : (a : ℕ) → from ≤ a → a < to → vm_is_static_p s.vm_map (frame_of s.memory pd a) ≡ true
  pub not_directory : (a : ℕ) → from ≤ a → a < to → frame_of s.memory pd a ≢ pd
  pub not_table :
      (a i : ℕ) → from ≤ a → a < to → i < 1024 → table s.memory pd i ≢ frame_of s.memory pd a
  pub own :
      (a b : ℕ)
      → from ≤ a
      → a < to
      → from ≤ b
      → b < to
      → frame_of s.memory pd a ≡ frame_of s.memory pd b
      → mask_to_page a ≡ mask_to_page b

abbrev pub AllBytes : List ℕ → Type 0
AllBytes [] = Unit {0}
AllBytes (b ∷ bs) = (b < 256) × AllBytes bs

pub AllBytes-take : (n : ℕ) (bs : List ℕ) → AllBytes bs → AllBytes (take n bs)
AllBytes-take zero bs h = tt
AllBytes-take (suc n) [] h = tt
AllBytes-take (suc n) (b ∷ bs) (h, rest) = (h, AllBytes-take n bs rest)

pub AllBytes-drop : (n : ℕ) (bs : List ℕ) → AllBytes bs → AllBytes (drop n bs)
AllBytes-drop zero bs h = h
AllBytes-drop (suc n) [] h = tt
AllBytes-drop (suc n) (b ∷ bs) (h, rest) = AllBytes-drop n bs rest

store_bytes-AreBytes :
    (m : Bytes) (a : ℕ) (bs : List ℕ) → AreBytes m → AllBytes bs → AreBytes (store_bytes m a bs)
unfolding store_bytes write
store_bytes-AreBytes m a [] h bytes = h
store_bytes-AreBytes m a (b ∷ bs) h (small, rest) =
    store_bytes-AreBytes (write m a b) (a + 1) bs (λ q. ground (arith, h q)) rest

module _ (pd f off : ℕ) (bs : List ℕ) (free : List ℕ) (s : Machine) (h : IsSpace pd s free)
    (page : f % 4096 ≡ 0) (fits : off + length bs ≤ 4096) (directory : f ≢ pd)
    (tables : (i : ℕ) → i < 1024 → table s.memory pd i ≢ f) (bytes : AllBytes bs) where
  abbrev pub stored : Machine
  stored = record s { memory = store_bytes s.memory (f + off) bs }

  word_stays :
      (t n : ℕ)
      → t % 4096 ≡ 0
      → n < 1024
      → t ≢ f
      → load32 stored.memory (t + 4 * n) ≡ load32 s.memory (t + 4 * n)
  unfolding load32
  word_stays t n ht lt ne = omega (
    arith,
    store_bytes-outside s.memory (f + off) bs (t + 4 * n) (ground arith),
    store_bytes-outside s.memory (f + off) bs (t + 4 * n + 1) (ground arith),
    store_bytes-outside s.memory (f + off) bs (t + 4 * n + 2) (ground arith),
    store_bytes-outside s.memory (f + off) bs (t + 4 * n + 3) (ground arith),
  )

  same : (k : ℕ) → k < 1024 → table stored.memory pd k ≡ table s.memory pd k
  same k lt = ap pte_get_paddr (word_stays pd k h.aligned lt (λ e. directory (sym e)))

  pub stored-IsSpace : IsSpace pd stored free
  stored-IsSpace =
      IsSpace-memory pd s free stored.memory h
        (store_bytes-AreBytes s.memory (f + off) bs h.bytes bytes) same

  pub walk-stored : (a : ℕ) → a < 2 ^ 32 → walk stored.memory pd a ≡ walk s.memory pd a
  walk-stored a lt = walk-beside s.memory stored.memory pd f a same word_stays tables lt

  pub table-stored : (k : ℕ) → k < 1024 → table stored.memory pd k ≡ table s.memory pd k
  table-stored = same
