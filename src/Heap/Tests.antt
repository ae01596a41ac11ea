-- ===== src/Heap/Tests.antt =====
-- The kernel heap at small regions, and its theorems there.
use yetanotheros.Common.Store.{write, write_self}
use yetanotheros.Heap.Free.{kfree}
use yetanotheros.Heap.Kfree.{release, kfree-releases}
use yetanotheros.Heap.Truncate.{drop_free}
use yetanotheros.Heap.Release.{mark, newer_is_free}
use yetanotheros.Common.{inl, none, some, ◌+◌, ◌%◌, ◌≡◌, ◌<◌, refl, true, false, [], ◌∷◌, arith}
use yetanotheros.Common.Outcome.{ok}
use yetanotheros.Heap.Alloc.{Heap, Machine, heap_normal, init_kernel_heap, kalloc}
use yetanotheros.Heap.Blocks.{Block, header, payload, IsHeap}
use yetanotheros.Heap.Kalloc.{CanAllocate, new_block, kalloc-allocates}

abbrev boot : Machine
boot = record {
  interrupts_on = false;
  active_cpus = 1;
  kernel_page_tables = true;
  palloc_locked = false;
  kp_locked = false;
}

abbrev empty : Heap
empty = init_kernel_heap 0x1000 0x10000

boot-CanAllocate : CanAllocate boot
boot-CanAllocate = record {
  no_deadlock = refl;
  page_tables = refl;
  palloc_free = refl;
  kp_free = refl;
}

empty-IsHeap : IsHeap empty []
unfolding init_kernel_heap
empty-IsHeap = record {
  running = refl;
  at_base = refl;
  above_null = omega arith;
  no_wrap = omega arith;
  in_region = omega arith;
  used = omega arith;
  last_is = refl;
  first_is = refl;
  chain = refl;
}

room : empty.heap + empty.cur_size + 16 + 28 + 100 < empty.region_base + empty.region_size
unfolding init_kernel_heap
room = omega arith

kalloc-allocates_example :
    (h' : Heap) × (kalloc boot heap_normal 16 100 empty ≡ ok (h', payload (new_block 16 100 empty)))
    × IsHeap h' (new_block 16 100 empty ∷ [])
    × (payload (new_block 16 100 empty) % 16 ≡ 0)
kalloc-allocates_example =
    kalloc-allocates boot 16 100 empty [] boot-CanAllocate empty-IsHeap (omega arith) room

-- A heap with one live block
abbrev one : Block
one = record { start = 0x1000; offset = 4; size = 96; free = false }

abbrev one_block : Heap
one_block = record {
  region_base = 0x1000;
  region_size = 0x10000;
  initialized = true;
  heap_size = 200;
  cur_size = 128;
  heap = 0x1000;
  first = 0x1004;
  last = 0x1004;
  alloc = write (λ _. none) 0x1004 (some (header one 0 0));
  mapped = [];
}

one_block-IsHeap : IsHeap one_block (one ∷ [])
one_block-IsHeap = record {
  running = refl;
  at_base = refl;
  above_null = omega arith;
  no_wrap = omega arith;
  in_region = omega arith;
  used = omega arith;
  last_is = refl;
  first_is = refl;
  chain = (write_self (λ _. none) 0x1004 (some (header one 0 0)), refl, refl);
}

kfree-releases_example :
    (h' : Heap) × (kfree (0x1004 + 28) one_block ≡ ok h') × IsHeap h' (release 0x1004 (one ∷ []))
kfree-releases_example =
    kfree-releases one_block (one ∷ []) 0x1004 one_block-IsHeap (inl refl) (omega arith)

-- Nothing is left of the heap.
released : release 0x1004 (one ∷ []) ≡ []
unfolding newer_is_free mark drop_free
released = refl
