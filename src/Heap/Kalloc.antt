-- ===== src/Heap/Kalloc.antt =====
-- What `kalloc` returns on a heap that is well formed and has room: an aligned live block behind
-- all others.
use yetanotheros.Common.{
  ℕ, ◌+◌, ◌-◌, ◌/◌, ◌%◌, ◌≡◌, ◌<◌, ◌≤◌, refl, true, false, List, ◌∷◌, ◌==◌, arith, subst, ap, ltb,
  leb, Bool-cases, ltb→lt, ◌||◌, if◌then◌else◌, ne→==, le→leb, inl, inr,
}
use yetanotheros.Common.Outcome.{ok, kassert}
use native.Mathlib.Nat.{div-add-mod', mod-lt, mul-mod_left}
use yetanotheros.Heap.Alloc.{
  Heap, Machine, header_size, heap_normal, unsafe_grow_heap, link_last, align_offset, kalloc,
  align_to_next_page, map_pages, u32,
}
use yetanotheros.Heap.Blocks.{Block, payload, IsHeap}
use yetanotheros.Heap.Link.{block_at_end, Linked, link_last-Linked}
use yetanotheros.Heap.Check.{unsafe_check_all-ok}

-- The checks that `kalloc` and `unsafe_grow_heap` make of the CPU and the other locks.
pub record CanAllocate (m : Machine) : Type 0 where
  pub no_deadlock : (m.interrupts_on || leb m.active_cpus 1) ≡ true
  pub page_tables : m.kernel_page_tables ≡ true
  pub palloc_free : m.palloc_locked ≡ false
  pub kp_free : m.kp_locked ≡ false

-- A block of this size fits below the end of the region, whatever gap the alignment needs.
abbrev pub Fits : ℕ → ℕ → Heap → Type 0
Fits alignment size h =
    h.heap + h.cur_size + alignment + header_size + size < h.region_base + h.region_size

abbrev pub new_block : ℕ → ℕ → Heap → Block
new_block alignment size h = block_at_end (align_offset alignment h) size h

abbrev total : ℕ → ℕ → Heap → ℕ
total alignment size h = h.cur_size + align_offset alignment h + header_size + size

align_offset-lt : (a : ℕ) (h : Heap) → 0 < a → align_offset a h < a
unfolding align_offset
align_offset-lt a h pos = omega arith

aligned_up : (a u : ℕ) → 0 < a → (u + (a - 1 - (u + a - 1) % a)) % a ≡ 0
aligned_up a u pos =
    subst (λ n. n % a ≡ 0) (omega (arith, div-add-mod' (u + a - 1) a, mod-lt (u + a - 1) pos))
      (mul-mod_left ((u + a - 1) / a) a)

module _ (a size : ℕ) (h : Heap) (bs : List Block) (i : IsHeap h bs) (pos : 0 < a)
    (fits : Fits a size h) where
  gap : align_offset a h ≡ a - 1 - (h.heap + h.cur_size + 28 + a - 1) % a
  unfolding align_offset
  gap = ap (λ n. a - 1 - n % a) (omega (arith, i.at_base, i.no_wrap))

  payload-aligned : payload (new_block a size h) % a ≡ 0
  payload-aligned =
      subst (λ n. n % a ≡ 0) (omega (arith, gap)) (aligned_up a (h.heap + h.cur_size + 28) pos)

  value : u32 (h.heap + h.cur_size + align_offset a h + header_size) ≡ payload (new_block a size h)
  value = omega (arith, align_offset-lt a h pos, i.at_base, i.no_wrap)

  room : u32 (total a size h) ≡ total a size h
  room = omega (arith, align_offset-lt a h pos, i.at_base, i.no_wrap)

  below : h.heap + total a size h < h.region_base + h.region_size
  below = omega (arith, align_offset-lt a h pos)

-- The heap after `unsafe_grow_heap`, or without it: the same blocks, and room for the new one.
record Grown (n : ℕ) (h : Heap) (bs : List Block) (h1 : Heap) : Type 0 where
  blocks : IsHeap h1 bs
  enough : n ≤ h1.heap_size
  same_cur : h1.cur_size ≡ h.cur_size
  same_heap : h1.heap ≡ h.heap

unsafe_grow_heap-Grown :
    (m : Machine) (n : ℕ) (h : Heap) (bs : List Block)
    → CanAllocate m
    → IsHeap h bs
    → h.heap_size < n
    → h.heap + n < h.region_base + h.region_size
    → (h1 : Heap) × (unsafe_grow_heap m n h ≡ ok h1) × Grown n h bs h1
unfolding unsafe_grow_heap
unsafe_grow_heap-Grown m n h bs can i lt le =
    let v = align_to_next_page (h.heap + h.heap_size) in
    let vto = align_to_next_page (h.heap + n) in
    (
      record h {
        heap_size = n;
        mapped = if v == vto then h.mapped else map_pages n v vto h.mapped;
      },
      rw
          (
            le→leb h.heap_size n (omega arith),
            le→leb (u32 (h.heap + n)) (u32 (h.region_base + h.region_size))
                (omega (arith, i.no_wrap)),
            can.palloc_free,
            can.kp_free,
          )
          refl,
      record {
        enough = omega arith;
        same_cur = refl;
        same_heap = refl;
        blocks = record {
          running = i.running;
          at_base = i.at_base;
          above_null = i.above_null;
          no_wrap = i.no_wrap;
          in_region = omega (arith, i.at_base);
          used = omega (arith, i.used);
          last_is = i.last_is;
          first_is = i.first_is;
          chain = i.chain;
        };
      },
    )

grow-Grown :
    (m : Machine) (n : ℕ) (h : Heap) (bs : List Block)
    → CanAllocate m
    → IsHeap h bs
    → h.heap + n < h.region_base + h.region_size
    → (h1 : Heap) × ((if ltb h.heap_size n then unsafe_grow_heap m n h else ok h) ≡ ok h1)
      × Grown n h bs h1
grow-Grown m n h bs can i le = elim (Bool-cases (ltb h.heap_size n)) [
  | inl y ↦ rw y (unsafe_grow_heap-Grown m n h bs can i (ltb→lt _ _ y) le)
  | inr k ↦ (
    h,
    rw k refl,
    record { blocks = i; enough = ground arith; same_cur = refl; same_heap = refl },
  )
]

-- `link_last` on the grown heap, where `kalloc` calls it.
link_last-Grown :
    (a size : ℕ) (h : Heap) (bs : List Block) (h1 : Heap)
    → Grown (total a size h) h bs h1
    → (h2 : Heap) × (link_last
          (payload (new_block a size h) - header_size)
          (align_offset a h)
          size
          h1
        ≡ ok h2)
      × IsHeap (record h2 { cur_size = total a size h }) (new_block a size h ∷ bs)
link_last-Grown a size h bs h1 g =
    let gap = align_offset a h in
    let k : (h2 : Heap) × Linked gap size h1 bs h2 =
      link_last-Linked gap size h1 bs g.blocks (omega (arith, g.same_cur, g.enough)) in
    (
      k.0,
      subst (λ p. link_last p gap size h1 ≡ ok k.0) (omega (arith, g.same_cur, g.same_heap)) k.1.0,
      subst
          (λ s.
            IsHeap (record k.0 { cur_size = total a size h })
              (record (new_block a size h) { start = s } ∷ bs))
          (omega (arith, g.same_cur, g.same_heap))
          (subst (λ c. IsHeap (record k.0 { cur_size = c }) (block_at_end gap size h1 ∷ bs))
            (ap (λ c. c + gap + header_size + size) g.same_cur) k.1.1),
    )

-- On a heap that stands for a list of blocks, with the CPU in order, an alignment that is not 0
-- and room in the region, `kalloc` returns a multiple of the alignment, and the heap then stands
-- for the same blocks with a live block of the size asked for behind them.
pub kalloc-allocates :
    (m : Machine) (a size : ℕ) (h : Heap) (bs : List Block)
    → CanAllocate m
    → IsHeap h bs
    → 0 < a
    → Fits a size h
    → (h' : Heap) × (kalloc m heap_normal a size h ≡ ok (h', payload (new_block a size h)))
      × IsHeap h' (new_block a size h ∷ bs)
      × (payload (new_block a size h) % a ≡ 0)
unfolding kalloc
kalloc-allocates m a size h bs can i pos fits =
    let g = grow-Grown m (total a size h) h bs can i (below a size h bs i pos fits) in
    let k = link_last-Grown a size h bs g.0 g.2 in
    (
      record k.0 { cur_size = total a size h },
      rw
          (
            can.no_deadlock,
            ap kassert i.running,
            can.page_tables,
            unsafe_check_all-ok h bs i,
            ne→== a 0 (omega arith),
            value a size h bs i pos fits,
            room a size h bs i pos fits,
            g.1,
            k.1,
            unsafe_check_all-ok (record k.0 { cur_size = total a size h }) (new_block a size h ∷ bs)
                k.2,
          )
          refl,
      k.2,
      payload-aligned a size h bs i pos fits,
    )
