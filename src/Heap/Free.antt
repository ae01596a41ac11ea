-- ===== src/Heap/Free.antt =====
-- kernel/arch/i386/heap.c: `kfree`, and the truncation of the free blocks at the end of the heap.
use yetanotheros.Common.{
  ℕ, zero, suc, ◌+◌, ◌-◌, ◌^◌, Bool, true, false, none, some, ◌==◌, if◌then◌else◌, ltb, leb, ◌&&◌,
}
use yetanotheros.Common.Outcome.{Outcome, ok, panic, ◌>>=◌, ◌>>◌, kassert}
use yetanotheros.Heap.Alloc.{HeapAlloc, Heap, null, header_size, u32, deref, put, unsafe_check}

-- The loop of `unsafe_truncate_heap`
unfoldable pub truncate_loop : ℕ → Heap → Outcome Heap
truncate_loop zero h = panic
truncate_loop (suc fuel) h = elim (h.last == null) [
  | true ↦ ok h
  | false ↦ elim (h.alloc h.last) [
    | none ↦ panic
    | some a ↦ elim a.free [
      | false ↦ ok h
      | true ↦ truncate_loop fuel (record h {
        cur_size = u32 (h.cur_size + 2 ^ 32 - (a.align_offset_size + header_size + a.size));
        last = a.prev;
      })
    ]
  ]
]

-- `unsafe_truncate_heap`, with more rounds than the heap has room for headers
unfoldable pub unsafe_truncate_heap : Heap → Outcome Heap
unfolding truncate_loop
unsafe_truncate_heap h =
    if h.last == null
    then ok h
    else truncate_loop (suc h.cur_size) h >>= λ h1.
        if h1.last == null
        then ok (record h1 { first = null })
        else deref h1 h1.last >>= λ a. ok (put h1 h1.last (record a { next = null }))

-- `alloc->next == NULL || alloc->next->free == true`
unfoldable pub next_is_free : Heap → HeapAlloc → Outcome Bool
next_is_free h a = if a.next == null then ok true else deref h a.next >>= λ n. ok n.free

-- `kfree`
unfoldable pub kfree : ℕ → Heap → Outcome Heap
unfolding unsafe_check unsafe_truncate_heap next_is_free
kfree v h = do
  kassert h.initialized
  kassert (leb h.region_base v && ltb v (u32 (h.region_base + h.region_size)))
  a ← deref h (v - header_size)
  kassert (unsafe_check a)
  let h1 = put h (v - header_size) (record a { free = true })
  trailing ← next_is_free h1 a
  if trailing then unsafe_truncate_heap h1 else ok h1
