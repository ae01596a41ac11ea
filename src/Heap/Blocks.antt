-- ===== src/Heap/Blocks.antt =====
-- The kernel heap as a list of blocks, newest first: what the headers in memory stand for.
use yetanotheros.Common.{
  ℕ, ◌+◌, ◌*◌, ◌≡◌, ◌<◌, ◌≤◌, ◌^◌, Bool, true, Option, some, List, [], ◌∷◌, arith, length,
}
use yetanotheros.Common.Store.{write, write_self, write_ne}
use yetanotheros.Heap.Alloc.{HeapAlloc, Heap, null, header_size, heap_alloc_magic}

-- `start` is where the gap for the alignment begins; the header stands behind it.
pub record Block : Type 0 where
  pub start : ℕ
  pub offset : ℕ
  pub size : ℕ
  pub free : Bool

abbrev pub addr : Block → ℕ
addr b = b.start + b.offset

-- What the caller of `kalloc` gets.
abbrev pub payload : Block → ℕ
payload b = addr b + header_size

abbrev pub last_of : List Block → ℕ
last_of [] = null
last_of (b ∷ bs) = addr b

-- Where the walk along `next` starts, at the oldest block, or `next` if there is none.
abbrev pub entry : ℕ → List Block → ℕ
entry next [] = next
entry next (b ∷ bs) = entry (addr b) bs

abbrev pub first_of : List Block → ℕ
first_of [] = null
first_of (b ∷ bs) = entry (addr b) bs

abbrev pub header : Block → ℕ → ℕ → HeapAlloc
header b prev next = record {
  magic1 = heap_alloc_magic;
  prev = prev;
  next = next;
  align_offset_size = b.offset;
  size = b.size;
  free = b.free;
  magic2 = heap_alloc_magic;
}

-- From `base` to `stop` the blocks follow one another with no gap and no overlap, and the header
-- of each is linked to its neighbours; the newest is linked to `next`.
abbrev pub Chain : (ℕ → Option HeapAlloc) → ℕ → ℕ → ℕ → List Block → Type 0
Chain m base stop next [] = stop ≡ base
Chain m base stop next (b ∷ bs) =
    (m (addr b) ≡ some (header b (last_of bs) next))
    × (stop ≡ payload b + b.size)
    × Chain m base b.start (addr b) bs

pub record IsHeap (h : Heap) (bs : List Block) : Type 0 where
  pub running : h.initialized ≡ true
  pub at_base : h.heap ≡ h.region_base
  pub above_null : 0 < h.heap
  pub no_wrap : h.region_base + h.region_size < 2 ^ 32
  pub in_region : h.heap_size ≤ h.region_size
  pub used : h.cur_size ≤ h.heap_size
  pub last_is : h.last ≡ last_of bs
  pub first_is : h.first ≡ first_of bs
  pub chain : Chain h.alloc h.heap (h.heap + h.cur_size) null bs

module _ (m : ℕ → Option HeapAlloc) (base : ℕ) where
  pub Chain-base-le : (stop next : ℕ) (bs : List Block) → Chain m base stop next bs → base ≤ stop
  Chain-base-le stop next [] c = omega arith
  Chain-base-le stop next (b ∷ bs) c = omega (arith, Chain-base-le b.start (addr b) bs c.2)

  -- Each block takes a header's room at least.
  pub Chain-length :
      (stop next : ℕ) (bs : List Block) → Chain m base stop next bs → base + 28 * length bs ≤ stop
  Chain-length stop next [] c = omega arith
  Chain-length stop next (b ∷ bs) c = omega (arith, Chain-length b.start (addr b) bs c.2)

  -- A write at or above the end touches no header.
  pub Chain-write :
      (stop next q : ℕ) (v : Option HeapAlloc) (bs : List Block)
      → stop ≤ q
      → Chain m base stop next bs
      → Chain (write m q v) base stop next bs
  Chain-write stop next q v [] h c = c
  Chain-write stop next q v (b ∷ bs) h c = (
    rw (write_ne m q v (addr b) (omega arith)) c.0,
    c.1,
    Chain-write b.start (addr b) q v bs (omega arith) c.2,
  )

  -- The newest header is linked to another `next`.
  pub Chain-next :
      (stop next next' : ℕ) (b : Block) (bs : List Block)
      → Chain m base stop next (b ∷ bs)
      → Chain (write m (addr b) (some (header b (last_of bs) next'))) base stop next' (b ∷ bs)
  Chain-next stop next next' b bs c =
      (write_self m (addr b) _, c.1, Chain-write b.start (addr b) (addr b) _ bs (omega arith) c.2)

  pub last_of-pos :
      (stop next : ℕ) (b : Block) (bs : List Block)
      → 0 < base
      → Chain m base stop next (b ∷ bs)
      → 0 < addr b
  last_of-pos stop next b bs h c = omega (arith, Chain-base-le b.start (addr b) bs c.2)

  pub first_of-pos :
      (stop next : ℕ) (b : Block) (bs : List Block)
      → 0 < base
      → Chain m base stop next (b ∷ bs)
      → 0 < first_of (b ∷ bs)
  first_of-pos stop next b [] h c = last_of-pos stop next b [] h c
  first_of-pos stop next b (d ∷ bs) h c = first_of-pos b.start (addr b) d bs h c.2
