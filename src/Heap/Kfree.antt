-- ===== src/Heap/Kfree.antt =====
-- `kfree` on a well-formed heap: the block is marked, and the free blocks at the end may go.
use yetanotheros.Common.{
  ℕ, ◌+◌, ◌-◌, ◌≡◌, ◌<◌, refl, true, some, List, arith, sym, subst, ap, ◌∙◌, if◌then◌else◌, ne→==,
  eq→==, le→leb, lt→ltb, inl, inr, Bool-cases,
}
use yetanotheros.Common.Outcome.{ok, kassert}
use yetanotheros.Common.Store.{write, write_ne}
use yetanotheros.Heap.Alloc.{Heap, null, header_size, deref, put, u32}
use yetanotheros.Heap.Free.{unsafe_truncate_heap, next_is_free, kfree}
use yetanotheros.Heap.Blocks.{Block, addr, header, IsHeap}
use yetanotheros.Heap.Truncate.{drop_free, unsafe_truncate_heap-IsHeap}
use yetanotheros.Heap.Release.{
  freed, mark, newer_is_free, HasBlock, HasBlock-ge, last_of-mark, first_of-mark, Marked,
  Chain-Marked,
}

-- The blocks after the block at `p` has been freed.
abbrev pub release : ℕ → List Block → List Block
release p bs = if newer_is_free true p bs then drop_free (mark p bs) else mark p bs

module _ (h : Heap) (bs : List Block) (p : ℕ) (i : IsHeap h bs)
    (k : Marked h.alloc h.heap (h.heap + h.cur_size) null p true bs) where
  abbrev marked : Heap
  marked = put h p (header (freed k.block) k.before k.after)

  marked-IsHeap : IsHeap marked (mark p bs)
  marked-IsHeap = record {
    running = i.running;
    at_base = i.at_base;
    above_null = i.above_null;
    no_wrap = i.no_wrap;
    in_region = i.in_region;
    used = i.used;
    last_is = i.last_is ∙ sym (last_of-mark p bs);
    first_is = i.first_is ∙ sym (first_of-mark p bs);
    chain = k.chain;
  }

  next_is_free-marked :
      next_is_free marked (header k.block k.before k.after) ≡ ok (newer_is_free true p bs)
  unfolding next_is_free
  next_is_free-marked = elim k.neighbour [
    | inl (end, free) ↦ rw (eq→== k.after null end) (ap ok (sym free))
    | inr (d, a, n, at, above, there, free) ↦
        let x = some (header (freed k.block) k.before k.after) in
        let found : write h.alloc p x k.after ≡ some (header d a n) =
          subst (λ q. write h.alloc p x q ≡ some (header d a n)) (sym at)
            (write_ne h.alloc p x (addr d) (omega arith) ∙ there) in
        rw (ne→== k.after null (omega arith), deref, found) (ap ok (sym free))
  ]

  settle :
      (h' : Heap) × ((if newer_is_free true p bs then unsafe_truncate_heap marked else ok marked)
        ≡ ok h')
      × IsHeap h' (release p bs)
  settle = elim (Bool-cases (newer_is_free true p bs)) [
    | inl y ↦ rw y (unsafe_truncate_heap-IsHeap marked (mark p bs) marked-IsHeap)
    | inr n ↦ rw n (marked, refl, marked-IsHeap)
  ]

-- On a well-formed heap with a block whose header is at `p` and whose address is below the end of
-- the region, `kfree` of that address returns, and the heap then stands for the same blocks with
-- this one marked free; if it was the newest, or the next newer one is free, all the free blocks
-- at the end are gone as well.
pub kfree-releases :
    (h : Heap) (bs : List Block) (p : ℕ)
    → IsHeap h bs
    → HasBlock p bs
    → p + header_size < h.region_base + h.region_size
    → (h' : Heap) × (kfree (p + header_size) h ≡ ok h') × IsHeap h' (release p bs)
unfolding kfree
kfree-releases h bs p i has inside =
    let k = Chain-Marked h.alloc h.heap (h.heap + h.cur_size) null p true bs i.chain has in
    let r = settle h bs p i k in
    let low = HasBlock-ge h.alloc h.heap (h.heap + h.cur_size) null p bs i.chain has in
    (
      r.0,
      rw
          (
            ap kassert i.running,
            le→leb h.region_base (p + header_size) (omega (arith, i.at_base, low)),
            lt→ltb (p + header_size) (u32 (h.region_base + h.region_size))
                (omega (arith, i.no_wrap)),
            gap,
            deref,
            k.found,
            next_is_free-marked h bs p i k,
          )
          r.1,
      r.2,
    )
  where
    gap : p + header_size - header_size ≡ p
    gap = omega arith
