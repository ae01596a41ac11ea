-- ===== src/Heap/Truncate.antt =====
-- `unsafe_truncate_heap` drops the free blocks at the end of the heap.
use yetanotheros.Common.{
  ℕ, zero, suc, ◌+◌, ◌-◌, ◌^◌, ◌≡◌, ◌≢◌, ◌<◌, ◌≤◌, refl, true, false, some, List, [], ◌∷◌, ◌==◌,
  arith, sym, subst, ap, ◌∙◌, if◌then◌else◌, ne→==, eq→==, inl, inr, Bool-cases, length,
}
use yetanotheros.Common.Outcome.{ok, ◌>>=◌}
use yetanotheros.Heap.Alloc.{HeapAlloc, Heap, null, header_size, deref, put, u32}
use yetanotheros.Heap.Free.{truncate_loop, unsafe_truncate_heap}
use yetanotheros.Heap.Blocks.{
  Block, addr, header, last_of, first_of, Chain, IsHeap, Chain-next, Chain-base-le, Chain-length,
  last_of-pos,
}

unfoldable pub drop_free : List Block → List Block
drop_free [] = []
drop_free (b ∷ bs) = if b.free then drop_free bs else b ∷ bs

drop_free-live : (b : Block) (bs : List Block) → b.free ≡ false → drop_free (b ∷ bs) ≡ b ∷ bs
unfolding drop_free
drop_free-live b bs e = subst (λ f. (if f then drop_free bs else b ∷ bs) ≡ b ∷ bs) (sym e) refl

drop_free-freed : (b : Block) (bs : List Block) → b.free ≡ true → drop_free (b ∷ bs) ≡ drop_free bs
unfolding drop_free
drop_free-freed b bs e =
    subst (λ f. (if f then drop_free bs else b ∷ bs) ≡ drop_free bs) (sym e) refl

older-first :
    (b : Block) (bs : List Block) (d : Block) (ds : List Block)
    → drop_free bs ≡ d ∷ ds
    → first_of bs ≡ first_of (d ∷ ds)
    → first_of (b ∷ bs) ≡ first_of (d ∷ ds)
unfolding drop_free
older-first b [] d ds e k = cc
older-first b (c ∷ cs) d ds e k = k

drop_free-first :
    (bs : List Block) (d : Block) (ds : List Block)
    → drop_free bs ≡ d ∷ ds
    → first_of bs ≡ first_of (d ∷ ds)
unfolding drop_free
drop_free-first [] d ds e = cc
drop_free-first (b ∷ bs) d ds e = elim (Bool-cases b.free) [
  | inr live ↦ ap first_of (sym (drop_free-live b bs live) ∙ e)
  | inl free ↦
      let e' = sym (drop_free-freed b bs free) ∙ e in
      older-first b bs d ds e' (drop_free-first bs d ds e')
]

loop-live :
    (fuel : ℕ) (h : Heap) (a : HeapAlloc)
    → h.last ≢ null
    → h.alloc h.last ≡ some a
    → a.free ≡ false
    → truncate_loop (suc fuel) h ≡ ok h
unfolding truncate_loop
loop-live fuel h a there e live = rw (truncate_loop, ne→== h.last null there, e, live) refl

loop-free :
    (fuel : ℕ) (h : Heap) (a : HeapAlloc)
    → h.last ≢ null
    → h.alloc h.last ≡ some a
    → a.free ≡ true
    → truncate_loop (suc fuel) h
      ≡ truncate_loop fuel (record h {
        cur_size = u32 (h.cur_size + 2 ^ 32 - (a.align_offset_size + header_size + a.size));
        last = a.prev;
      })
unfolding truncate_loop
loop-free fuel h a there e free = rw (truncate_loop, ne→== h.last null there, e, free) refl

-- The heap after the loop, and the chain that it leaves
abbrev Loop : ℕ → Heap → List Block → Type 0
Loop fuel h ds =
    (c : ℕ) × (n : ℕ) × (truncate_loop fuel h ≡ ok (record h { cur_size = c; last = last_of ds }))
    × (c ≤ h.cur_size)
    × Chain h.alloc h.heap (h.heap + c) n ds

abbrev Cut : ℕ → Heap → List Block → Type 0
Cut fuel h bs = Loop fuel h (drop_free bs)

loop-none :
    (fuel : ℕ) (h : Heap)
    → h.last ≡ null
    → truncate_loop (suc fuel) h ≡ ok (record h { last = null })
unfolding truncate_loop
loop-none fuel h e =
    rw (truncate_loop, eq→== h.last null e) (ap (λ l. ok (record h { last = l })) e)

truncate_loop-Cut :
    (fuel : ℕ) (h : Heap) (next : ℕ) (bs : List Block)
    → length bs < fuel
    → 0 < h.heap
    → h.cur_size < 2 ^ 32
    → h.last ≡ last_of bs
    → Chain h.alloc h.heap (h.heap + h.cur_size) next bs
    → Cut fuel h bs
unfolding drop_free
truncate_loop-Cut zero h next bs enough pos small last c = absurd (omega arith)
truncate_loop-Cut (suc fuel) h next [] enough pos small last c =
    (h.cur_size, next, loop-none fuel h last, omega arith, c)
truncate_loop-Cut (suc fuel) h next (b ∷ bs) enough pos small last c =
    let there : h.alloc h.last ≡ some (header b (last_of bs) next) =
      subst (λ p. h.alloc p ≡ some (header b (last_of bs) next)) (sym last) c.0 in
    let above = last_of-pos h.alloc h.heap (h.heap + h.cur_size) next b bs pos c in
    let base = Chain-base-le h.alloc h.heap b.start (addr b) bs c.2 in
    elim (Bool-cases b.free) [
      | inr live ↦
          subst (λ l. Loop (suc fuel) h l) (sym (drop_free-live b bs live))
            (
              h.cur_size,
              next,
              loop-live fuel h (header b (last_of bs) next) (omega (arith, last, above)) there live
                  ∙ ap (λ l. ok (record h { last = l })) last,
              omega arith,
              c,
            )
      | inl free ↦
          let cut : ℕ = b.start - h.heap in
          let r : Cut fuel (record h { cur_size = cut; last = last_of bs }) bs =
            truncate_loop-Cut fuel (record h { cur_size = cut; last = last_of bs }) (addr b) bs
              (omega arith) pos (omega arith) refl
              (subst (λ x. Chain h.alloc h.heap x (addr b) bs) (omega (arith, base)) c.2) in
          subst (λ l. Loop (suc fuel) h l) (sym (drop_free-freed b bs free))
            (
              r.0,
              r.1,
              loop-free fuel h (header b (last_of bs) next) (omega (arith, last, above)) there free
                  ∙ ap (λ x. truncate_loop fuel (record h { cur_size = x; last = last_of bs }))
                      (omega (arith, base))
                  ∙ r.2,
              omega (arith, r.3, base),
              r.4,
            )
    ]

-- What `unsafe_truncate_heap` does behind its loop, on the blocks `ds` that are left
module _ (h : Heap) (bs : List Block) (i : IsHeap h bs) (c n : ℕ) (le : c ≤ h.cur_size) where
  abbrev after_loop : List Block → Heap
  after_loop ds = record h { cur_size = c; last = last_of ds }

  close_list :
      (ds : List Block)
      → drop_free bs ≡ ds
      → Chain h.alloc h.heap (h.heap + c) n ds
      → (h' : Heap) × ((if last_of ds == null
            then ok (record (after_loop ds) { first = null })
            else deref (after_loop ds) (last_of ds) >>= λ a.
                ok (put (after_loop ds) (last_of ds) (record a { next = null })))
          ≡ ok h')
        × IsHeap h' ds
  close_list [] e chain = (
    record (after_loop []) { first = null },
    refl,
    record {
      running = i.running;
      at_base = i.at_base;
      above_null = i.above_null;
      no_wrap = i.no_wrap;
      in_region = i.in_region;
      used = omega (arith, i.used);
      last_is = refl;
      first_is = refl;
      chain = chain;
    },
  )
  close_list (d ∷ ds) e chain = (
    put (after_loop (d ∷ ds)) (addr d) (header d (last_of ds) null),
    rw
        (
          ne→== (addr d) null
              (omega (arith, last_of-pos h.alloc h.heap (h.heap + c) n d ds i.above_null chain)),
          deref,
          chain.0,
        )
        refl,
    record {
      running = i.running;
      at_base = i.at_base;
      above_null = i.above_null;
      no_wrap = i.no_wrap;
      in_region = i.in_region;
      used = omega (arith, i.used);
      last_is = refl;
      first_is = i.first_is ∙ drop_free-first bs d ds e;
      chain = Chain-next h.alloc h.heap (h.heap + c) n null d ds chain;
    },
  )

pub unsafe_truncate_heap-IsHeap :
    (h : Heap) (bs : List Block)
    → IsHeap h bs
    → (h' : Heap) × (unsafe_truncate_heap h ≡ ok h') × IsHeap h' (drop_free bs)
unfolding unsafe_truncate_heap drop_free
unsafe_truncate_heap-IsHeap h [] i = (h, rw (eq→== h.last null i.last_is) refl, i)
unsafe_truncate_heap-IsHeap h (b ∷ bs) i =
    let stop = h.heap + h.cur_size in
    let cut =
      truncate_loop-Cut (suc h.cur_size) h null (b ∷ bs)
        (omega (arith, Chain-length h.alloc h.heap stop null (b ∷ bs) i.chain)) i.above_null
        (omega (arith, i.used, i.in_region, i.no_wrap)) i.last_is i.chain in
    let r = close_list h (b ∷ bs) i cut.0 cut.1 cut.3 (drop_free (b ∷ bs)) refl cut.4 in
    (
      r.0,
      rw
          (
            ne→== h.last null (
                omega (
                  arith,
                  i.last_is,
                  last_of-pos h.alloc h.heap stop null b bs i.above_null i.chain,
                )),
            cut.2,
          )
          r.1,
      r.2,
    )
