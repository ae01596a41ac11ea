-- ===== src/Heap/Check.antt =====
-- `unsafe_check_all` passes on a heap whose headers stand for a list of blocks.
use yetanotheros.Common.{
  ℕ, suc, ◌+◌, ◌-◌, ◌≡◌, ◌<◌, ◌≤◌, refl, true, some, List, [], ◌∷◌, arith, length, sym, subst,
  ne→==, ◌∙◌,
}
use yetanotheros.Common.Outcome.{ok}
use yetanotheros.Heap.Alloc.{Heap, null, unsafe_check, check_from, unsafe_check_all}
use yetanotheros.Heap.Blocks.{
  Block, addr, header, last_of, entry, Chain, IsHeap, Chain-length, last_of-pos,
}

pub unsafe_check-header : (b : Block) (p n : ℕ) → unsafe_check (header b p n) ≡ true
unfolding unsafe_check
unsafe_check-header b p n = refl

check_from-null : (fuel : ℕ) (h : Heap) → check_from (suc fuel) h null ≡ ok tt
unfolding check_from
check_from-null fuel h = refl

-- One round over a header that stands where it should.
check_from-header :
    (fuel : ℕ) (h : Heap) (b : Block) (p n : ℕ)
    → 0 < addr b
    → h.alloc (addr b) ≡ some (header b p n)
    → check_from (suc fuel) h (addr b) ≡ check_from fuel h n
unfolding check_from unsafe_check
check_from-header fuel h b p n pos e = rw (ne→== (addr b) null (omega arith), e, check_from) refl

check_from-entry :
    (fuel : ℕ) (h : Heap) (base stop next : ℕ) (bs : List Block)
    → 0 < base
    → Chain h.alloc base stop next bs
    → check_from fuel h next ≡ ok tt
    → check_from (length bs + fuel) h (entry next bs) ≡ ok tt
check_from-entry fuel h base stop next [] pos c e =
    subst (λ n. check_from n h next ≡ ok tt) (omega arith) e
check_from-entry fuel h base stop next (b ∷ bs) pos c e =
    subst (λ n. check_from n h (entry (addr b) bs) ≡ ok tt) (omega arith)
      (check_from-entry (suc fuel) h base b.start (addr b) bs pos c.2 (
        check_from-header fuel h b (last_of bs) next (last_of-pos h.alloc base stop next b bs pos c)
          c.0
        ∙ e))

-- More rounds than the heap has bytes left are enough at the end of the list.
check_from-rounds :
    (h : Heap) (k : ℕ) → k ≤ h.cur_size → check_from (suc h.cur_size - k) h null ≡ ok tt
check_from-rounds h k le =
    subst (λ n. check_from n h null ≡ ok tt) (omega arith) (check_from-null (h.cur_size - k) h)

room : (h : Heap) (bs : List Block) → IsHeap h bs → length bs ≤ h.cur_size
room h bs i = omega (arith, Chain-length h.alloc h.heap (h.heap + h.cur_size) null bs i.chain)

check_from-first :
    (h : Heap) (bs : List Block) → IsHeap h bs → check_from (suc h.cur_size) h h.first ≡ ok tt
check_from-first h [] i =
    subst (λ p. check_from (suc h.cur_size) h p ≡ ok tt) (sym i.first_is)
      (check_from-null h.cur_size h)
check_from-first h (b ∷ bs) i =
    subst (λ p. check_from (suc h.cur_size) h p ≡ ok tt) (sym i.first_is)
      (subst (λ n. check_from n h (entry (addr b) bs) ≡ ok tt) (omega (arith, room h (b ∷ bs) i))
        (check_from-entry (suc h.cur_size - length (b ∷ bs)) h h.heap (h.heap + h.cur_size) null
          (b ∷ bs) i.above_null i.chain
          (check_from-rounds h (length (b ∷ bs)) (room h (b ∷ bs) i))))

check_from-last :
    (h : Heap) (bs : List Block) → IsHeap h bs → check_from (suc h.cur_size) h h.last ≡ ok tt
check_from-last h [] i =
    subst (λ p. check_from (suc h.cur_size) h p ≡ ok tt) (sym i.last_is)
      (check_from-null h.cur_size h)
check_from-last h (b ∷ bs) i =
    subst (λ p. check_from (suc h.cur_size) h p ≡ ok tt) (sym i.last_is)
      (check_from-header h.cur_size h b (last_of bs) null
          (last_of-pos h.alloc h.heap (h.heap + h.cur_size) null b bs i.above_null i.chain)
          i.chain.0
        ∙ subst (λ n. check_from n h null ≡ ok tt) (omega (arith, room h (b ∷ bs) i))
            (check_from-null (h.cur_size - 1) h))

pub unsafe_check_all-ok : (h : Heap) (bs : List Block) → IsHeap h bs → unsafe_check_all h ≡ ok tt
unfolding unsafe_check_all
unsafe_check_all-ok h bs i = rw (check_from-first h bs i) (check_from-last h bs i)
