-- ===== src/Paging/Take.antt =====
-- A page that is taken from the allocator and cleared leaves an address space as it was.
use yetanotheros.Common.{ℕ, ◌+◌, ◌*◌, ◌%◌, ◌^◌, ◌<◌, ◌≡◌, ◌≢◌, inl, refl, sym, ap, List, ◌∷◌}
use yetanotheros.Palloc.FreeList.{taken}
use yetanotheros.Paging.Words.{load32, kmemset, load32-kmemset_ne, kmemset-AreBytes}
use yetanotheros.Paging.Tables.{Machine, pte_get_paddr}
use yetanotheros.Paging.Space.{
  table, walk, frame, IsSpace, IsSpace-memory, IsSpace-taken, word-beside, walk-beside,
}

abbrev pub took : ℕ → Machine → Machine
took v s = record s { pages = taken v s.pages; memory = kmemset (frame s v) 0 4096 s.memory }

module _ (pd v : ℕ) (vs : List ℕ) (s : Machine) (h : IsSpace pd s (v ∷ vs)) where
  word_stays :
      (t n : ℕ)
      → t % 4096 ≡ 0
      → n < 1024
      → t ≢ frame s v
      → load32 (took v s).memory (t + 4 * n) ≡ load32 s.memory (t + 4 * n)
  word_stays t n ht lt ne =
      load32-kmemset_ne (frame s v) 0 4096 s.memory (t + 4 * n)
        (word-beside t n (frame s v) ht lt (h.spare v (inl refl)).aligned ne)

  pub entry-took :
      (k : ℕ) → k < 1024 → load32 (took v s).memory (pd + 4 * k) ≡ load32 s.memory (pd + 4 * k)
  entry-took k lt = word_stays pd k h.aligned lt (λ e. (h.spare v (inl refl)).not_directory (sym e))

  same : (k : ℕ) → k < 1024 → table (took v s).memory pd k ≡ table s.memory pd k
  same k lt = ap pte_get_paddr (entry-took k lt)

  pub took-IsSpace : IsSpace pd (took v s) vs
  took-IsSpace =
      IsSpace-taken pd v vs (record s { memory = kmemset (frame s v) 0 4096 s.memory })
        (IsSpace-memory pd s (v ∷ vs) (took v s).memory h
          (kmemset-AreBytes (frame s v) 4096 s.memory h.bytes) same)

  pub walk-took : (a : ℕ) → a < 2 ^ 32 → walk (took v s).memory pd a ≡ walk s.memory pd a
  walk-took a lt =
      walk-beside s.memory (took v s).memory pd (frame s v) a same word_stays
        (h.spare v (inl refl)).not_table lt
