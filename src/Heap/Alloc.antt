-- ===== src/Heap/Alloc.antt =====
-- kernel/arch/i386/heap.c: the allocation headers, growing the heap, and `kalloc`.
use yetanotheros.Common.{
  ℕ, zero, suc, ◌+◌, ◌-◌, ◌*◌, ◌/◌, ◌%◌, ◌^◌, Bool, true, false, Option, none, some, List, [], ◌∷◌,
  ◌==◌, if◌then◌else◌, ltb, leb, ◌&&◌, ◌||◌, not,
}
use yetanotheros.Common.Outcome.{Outcome, ok, panic, ◌>>=◌, ◌>>◌, kassert}
use yetanotheros.Common.Store.{write}

abbrev pub null : ℕ
null = 0

abbrev pub heap_alloc_magic : ℕ
heap_alloc_magic = 0xa110_ca73

-- `sizeof(struct heap_alloc)` on i386
abbrev pub header_size : ℕ
header_size = 28

abbrev pub page_size : ℕ
page_size = 4096

-- Address arithmetic is modulo 2 ^ 32.
abbrev pub u32 : ℕ → ℕ
u32 n = n % 2 ^ 32

-- `struct heap_alloc`
pub record HeapAlloc : Type 0 where
  pub magic1 : ℕ
  pub prev : ℕ
  pub next : ℕ
  pub align_offset_size : ℕ
  pub size : ℕ
  pub free : Bool
  pub magic2 : ℕ

-- The static variables of heap.c, the region that they point to, the headers that stand in memory
-- (`none`: no header has been written at this address), and the pages given to `kp_map`.
pub record Heap : Type 0 where
  pub region_base : ℕ
  pub region_size : ℕ
  pub initialized : Bool
  pub heap_size : ℕ
  pub cur_size : ℕ
  pub heap : ℕ
  pub first : ℕ
  pub last : ℕ
  pub alloc : ℕ → Option HeapAlloc
  pub mapped : List ℕ

-- What the heap asks of the CPU and of the other allocators before it works.
pub record Machine : Type 0 where
  pub interrupts_on : Bool
  pub active_cpus : ℕ
  pub kernel_page_tables : Bool
  pub palloc_locked : Bool
  pub kp_locked : Bool

-- `p->…`
abbrev pub deref : Heap → ℕ → Outcome HeapAlloc
deref h p = elim (h.alloc p) [ none ↦ panic | some a ↦ ok a ]

abbrev pub put : Heap → ℕ → HeapAlloc → Heap
put h p a = record h { alloc = write h.alloc p (some a) }

-- `init_kernel_heap`; `cur_size` is 0 from the start.
unfoldable pub init_kernel_heap : ℕ → ℕ → Heap
init_kernel_heap base size = record {
  region_base = base;
  region_size = size;
  initialized = true;
  heap_size = 0;
  cur_size = 0;
  heap = base;
  first = null;
  last = null;
  alloc = λ _. none;
  mapped = [];
}

unfoldable pub unsafe_check : HeapAlloc → Bool
unsafe_check a = a.magic1 == heap_alloc_magic && a.magic2 == heap_alloc_magic

-- Both loops of `unsafe_check_all`: the second starts at `last` and follows `next` too.
unfoldable pub check_from : ℕ → Heap → ℕ → Outcome (Unit {0})
unfolding unsafe_check
check_from zero h p = panic
check_from (suc fuel) h p = elim (p == null) [
  | true ↦ ok tt
  | false ↦ elim (h.alloc p) [
    | none ↦ panic
    | some a ↦ elim (unsafe_check a) [ true ↦ check_from fuel h a.next | false ↦ panic ]
  ]
]

-- `unsafe_check_all`, with more rounds than the heap has room for headers
unfoldable pub unsafe_check_all : Heap → Outcome (Unit {0})
unfolding check_from
unsafe_check_all h = check_from (suc h.cur_size) h h.first >> check_from (suc h.cur_size) h h.last

-- `align_to_next_page`
abbrev pub align_to_next_page : ℕ → ℕ
align_to_next_page x = u32 (x + page_size - 1) / page_size * page_size

-- The loop of `unsafe_grow_heap`: each page address is mapped, to what `palloc` returns, which the
-- source does not compare with PHYS_NULL.
unfoldable pub map_pages : ℕ → ℕ → ℕ → List ℕ → List ℕ
map_pages zero v vto mapped = mapped
map_pages (suc fuel) v vto mapped = elim (ltb v vto) [
  | true ↦ map_pages fuel (v + page_size) vto (v ∷ mapped)
  | false ↦ mapped
]

-- `unsafe_grow_heap`
unfoldable pub unsafe_grow_heap : Machine → ℕ → Heap → Outcome Heap
unfolding map_pages
unsafe_grow_heap m new_size h = do
  kassert (leb h.heap_size new_size)
  kassert (leb (u32 (h.heap + new_size)) (u32 (h.region_base + h.region_size)))
  kassert (not m.palloc_locked)
  kassert (not m.kp_locked)
  let v = align_to_next_page (h.heap + h.heap_size)
  let vto = align_to_next_page (h.heap + new_size)
  ok (record h {
    heap_size = new_size;
    mapped = if v == vto then h.mapped else map_pages new_size v vto h.mapped;
  })

-- The list operations at the end of `kalloc`: the new header behind `last`.
unfoldable pub link_last : ℕ → ℕ → ℕ → Heap → Outcome Heap
link_last p offset size h =
    let a : HeapAlloc = record {
      magic1 = heap_alloc_magic;
      prev = h.last;
      next = null;
      align_offset_size = offset;
      size = size;
      free = false;
      magic2 = heap_alloc_magic;
    } in
    let first' = if h.first == null then p else h.first in
    if h.last == null
    then ok (record h { alloc = write h.alloc p (some a); first = first'; last = p })
    else do
      l ← deref h h.last
      ok (record h {
        alloc = write (write h.alloc h.last (some (record l { next = p }))) p (some a);
        first = first';
        last = p;
      })

-- The size of the gap that `kalloc` leaves so that what follows the header is aligned.
unfoldable pub align_offset : ℕ → Heap → ℕ
align_offset alignment h =
    let unaligned = u32 (h.heap + h.cur_size + header_size) in
    alignment - 1 - u32 (unaligned + alignment - 1) % alignment

-- The modes of kernel/heap.h
abbrev pub heap_normal : ℕ
heap_normal = 1

abbrev pub heap_continuous : ℕ
heap_continuous = 2

-- `kalloc`; an alignment of 0 is a division by zero.
unfoldable pub kalloc : Machine → ℕ → ℕ → ℕ → Heap → Outcome (Heap × ℕ)
unfolding unsafe_check_all unsafe_grow_heap link_last align_offset
kalloc m mode alignment size h = do
  kassert (m.interrupts_on || leb m.active_cpus 1)
  kassert (not (mode == heap_continuous))
  kassert h.initialized
  kassert m.kernel_page_tables
  unsafe_check_all h
  kassert (not (alignment == 0))
  let offset = align_offset alignment h
  let v = u32 (h.heap + h.cur_size + offset + header_size)
  let total = u32 (h.cur_size + offset + header_size + size)
  h1 ← (if ltb h.heap_size total then unsafe_grow_heap m total h else ok h)
  h2 ← link_last (v - header_size) offset size h1
  let h3 = record h2 { cur_size = total }
  unsafe_check_all h3
  ok (h3, v)
