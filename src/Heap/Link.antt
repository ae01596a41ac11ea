-- ===== src/Heap/Link.antt =====
-- The end of `kalloc`: the new header is linked behind the others.
use yetanotheros.Common.{
  ℕ, ◌+◌, ◌≡◌, ◌≤◌, refl, false, some, List, [], ◌∷◌, arith, sym, subst, ap, ◌∙◌, ne→==, eq→==,
}
use yetanotheros.Common.Outcome.{ok}
use yetanotheros.Common.Store.{write, write_self}
use yetanotheros.Heap.Alloc.{Heap, null, header_size, link_last, deref}
use yetanotheros.Heap.Blocks.{
  Block, addr, header, last_of, Chain, IsHeap, Chain-write, Chain-next, last_of-pos, first_of-pos,
}

-- The live block that begins where the heap ends.
abbrev pub block_at_end : ℕ → ℕ → Heap → Block
block_at_end gap size h = record {
  start = h.heap + h.cur_size;
  offset = gap;
  size = size;
  free = false;
}

-- `link_last` and the growth of `cur_size` behind it.
abbrev pub Linked : ℕ → ℕ → Heap → List Block → Heap → Type 0
Linked gap size h bs h2 =
    (link_last (addr (block_at_end gap size h)) gap size h ≡ ok h2)
    × IsHeap (record h2 { cur_size = h.cur_size + gap + header_size + size })
        (block_at_end gap size h ∷ bs)

module _ (gap size : ℕ) (h : Heap) where
  link_last-first :
      IsHeap h []
      → h.cur_size + gap + header_size + size ≤ h.heap_size
      → (h2 : Heap) × Linked gap size h [] h2
  unfolding link_last
  link_last-first i le = (
    record h {
      alloc =
          write h.alloc (addr (block_at_end gap size h))
            (some (header (block_at_end gap size h) h.last null));
      first = addr (block_at_end gap size h);
      last = addr (block_at_end gap size h);
    },
    (
      rw (eq→== h.last null i.last_is, eq→== h.first null i.first_is) refl,
      record {
        running = i.running;
        at_base = i.at_base;
        above_null = i.above_null;
        no_wrap = i.no_wrap;
        in_region = i.in_region;
        used = le;
        last_is = refl;
        first_is = refl;
        chain = (
          write_self h.alloc _ _
              ∙ ap (λ p. some (header (block_at_end gap size h) p null)) i.last_is,
          omega arith,
          i.chain,
        );
      },
    ),
  )

  link_last-behind :
      (c : Block) (bs : List Block)
      → IsHeap h (c ∷ bs)
      → h.cur_size + gap + header_size + size ≤ h.heap_size
      → (h2 : Heap) × Linked gap size h (c ∷ bs) h2
  unfolding link_last
  link_last-behind c bs i le =
      let b : Block = block_at_end gap size h in
      let old : h.alloc h.last ≡ some (header c (last_of bs) null) =
        subst (λ p. h.alloc p ≡ some (header c (last_of bs) null)) (sym i.last_is) i.chain.0 in
      let stop = h.heap + h.cur_size in
      (
        record h {
          alloc =
              write (write h.alloc h.last (some (header c (last_of bs) (addr b)))) (addr b)
                (some (header b h.last null));
          last = addr b;
        },
        (
          rw
              (
                ne→== h.last null (
                    omega (
                      arith,
                      i.last_is,
                      last_of-pos h.alloc h.heap stop null c bs i.above_null i.chain,
                    )),
                ne→== h.first null (
                    omega (
                      arith,
                      i.first_is,
                      first_of-pos h.alloc h.heap stop null c bs i.above_null i.chain,
                    )),
                deref,
                old,
              )
              refl,
          record {
            running = i.running;
            at_base = i.at_base;
            above_null = i.above_null;
            no_wrap = i.no_wrap;
            in_region = i.in_region;
            used = le;
            last_is = refl;
            first_is = i.first_is;
            chain = (
              write_self _ (addr b) _ ∙ ap (λ p. some (header b p null)) i.last_is,
              omega arith,
              subst
                  (λ p.
                    Chain
                      (write (write h.alloc p (some (header c (last_of bs) (addr b)))) (addr b)
                        (some (header b h.last null)))
                      h.heap stop (addr b) (c ∷ bs))
                  (sym i.last_is)
                  (Chain-write (write h.alloc (addr c) (some (header c (last_of bs) (addr b))))
                    h.heap stop (addr b) (addr b) (some (header b h.last null)) (c ∷ bs)
                    (omega arith) (Chain-next h.alloc h.heap stop null (addr b) c bs i.chain)),
            );
          },
        ),
      )

  pub link_last-Linked :
      (bs : List Block)
      → IsHeap h bs
      → h.cur_size + gap + header_size + size ≤ h.heap_size
      → (h2 : Heap) × Linked gap size h bs h2
  link_last-Linked [] i le = link_last-first i le
  link_last-Linked (c ∷ bs) i le = link_last-behind c bs i le
