-- ===== src/Paging/PageWrite.antt =====
-- One page of a buffer is written to another address space.
use yetanotheros.Common.{
  get_elem?-take, get_elem?-drop, get_elem?-lt, ℕ, ◌+◌, ◌-◌, ◌%◌, ◌^◌, ◌<◌, ◌≤◌, ◌≡◌, ◌≢◌, ◌⊎◌, inl,
  inr, refl, sym, ap, ◌∙◌, subst, true, false, some, List, ltb, length, take, drop, get_elem?,
  length-take, length-drop, arith, Bool-cases, ltb→lt,
}
use yetanotheros.Paging.Tables.{Machine, mask_to_page}
use yetanotheros.Paging.Space.{table, walk, IsSpace}
use yetanotheros.Paging.Reserve.{frame_of, walk-page}
use yetanotheros.Paging.Exchange.{page_batch, next_page}
use yetanotheros.Paging.DataPages.{
  phys, IsData, AllBytes, AllBytes-take, stored-IsSpace, walk-stored, table-stored,
}
use yetanotheros.Paging.Tables.{pte_get_paddr}
use yetanotheros.Vfs.Reading.{store_bytes-outside, store_bytes-inside}
use yetanotheros.Vfs.Transfer.{store_bytes}
use yetanotheros.Vm.Layout.{vm_is_static_p}

-- The state after `buf` was written at `v`
pub record Wrote (pd v : ℕ) (buf : List ℕ) (free : List ℕ) (s s' : Machine) : Type 0 where
  pub space : IsSpace pd s' free
  pub same_map : s'.vm_map ≡ s.vm_map
  pub entries : (a : ℕ) → a < 2 ^ 32 → walk s'.memory pd a ≡ walk s.memory pd a
  pub tables : (i : ℕ) → i < 1024 → table s'.memory pd i ≡ table s.memory pd i
  pub bytes : (i b : ℕ) → get_elem? buf i ≡ some b → s'.memory (phys s.memory pd (v + i)) ≡ b
  pub other :
      (q : ℕ)
      → ((a : ℕ) → v ≤ a → a < v + length buf → q ≢ phys s.memory pd a)
      → s'.memory q ≡ s.memory q

module _ (pd to : ℕ) (free : List ℕ) (below : to + 4096 < 2 ^ 32) where
  -- One page of the buffer is written.
  pub record Batch (v : ℕ) (buf : List ℕ) (s : Machine) : Type 0 where
    pub space : IsSpace pd s free
    pub range : v + length buf ≤ to
    pub more : 0 < length buf
    pub pages : IsData pd v (v + length buf) s
    pub small : AllBytes buf

  abbrev frame_at : ℕ → Machine → ℕ
  frame_at v s = frame_of s.memory pd v

  abbrev batch : ℕ → List ℕ → List ℕ
  batch v buf = take (page_batch v (length buf)) buf

  abbrev pub after : ℕ → List ℕ → Machine → Machine
  after v buf s = record s {
    memory = store_bytes s.memory (frame_at v s + (v - mask_to_page v)) (batch v buf);
  }

  batch_fits : (v : ℕ) (buf : List ℕ) → v - mask_to_page v + length (batch v buf) ≤ 4096
  batch_fits v buf = omega (arith, length-take (page_batch v (length buf)) buf)

  module _ (v : ℕ) (buf : List ℕ) (s : Machine) (b : Batch v buf s) where
    pub after-IsSpace : IsSpace pd (after v buf s) free
    after-IsSpace =
        stored-IsSpace pd (frame_at v s) (v - mask_to_page v) (batch v buf) free s b.space
          (omega arith) (batch_fits v buf)
          (b.pages.not_directory v (omega arith) (omega (arith, b.more)))
          (λ i lt. b.pages.not_table v i (omega arith) (omega (arith, b.more)) lt)
          (AllBytes-take (page_batch v (length buf)) buf b.small)

    walk-after : (a : ℕ) → a < 2 ^ 32 → walk (after v buf s).memory pd a ≡ walk s.memory pd a
    walk-after =
        walk-stored pd (frame_at v s) (v - mask_to_page v) (batch v buf) free s b.space
          (omega arith) (batch_fits v buf)
          (b.pages.not_directory v (omega arith) (omega (arith, b.more)))
          (λ i lt. b.pages.not_table v i (omega arith) (omega (arith, b.more)) lt)
          (AllBytes-take (page_batch v (length buf)) buf b.small)

    table-after : (i : ℕ) → i < 1024 → table (after v buf s).memory pd i ≡ table s.memory pd i
    table-after =
        table-stored pd (frame_at v s) (v - mask_to_page v) (batch v buf) free s b.space
          (omega arith) (batch_fits v buf)
          (b.pages.not_directory v (omega arith) (omega (arith, b.more)))
          (λ i lt. b.pages.not_table v i (omega arith) (omega (arith, b.more)) lt)
          (AllBytes-take (page_batch v (length buf)) buf b.small)

    -- Where the bytes of this page stand
    phys-here :
        (j : ℕ)
        → j < page_batch v (length buf)
        → phys s.memory pd (v + j) ≡ frame_at v s + (v - mask_to_page v) + j
    phys-here j lt =
        ap (λ f. f + (v + j) % 4096)
          (ap pte_get_paddr (walk-page s.memory pd (v + j) v (within (v - mask_to_page v) refl)))
        ∙ offset (frame_at v s)
      where
        within : (o : ℕ) → o ≡ v - mask_to_page v → mask_to_page (v + j) ≡ mask_to_page v
        within o e = omega arith

        offset : (f : ℕ) → f + (v + j) % 4096 ≡ f + (v - mask_to_page v) + j
        offset f = omega arith

    -- The addresses of later pages are in the range too.
    later_range :
        (a : ℕ)
        → next_page v ≤ a
        → a < next_page v + length (drop (page_batch v (length buf)) buf)
        → a < v + length buf
    later_range a low high = omega (arith, length-drop (page_batch v (length buf)) buf, b.range)

    phys-after : (a : ℕ) → a < 2 ^ 32 → phys (after v buf s).memory pd a ≡ phys s.memory pd a
    phys-after a lt = ap (λ e. pte_get_paddr e + a % 4096) (walk-after a lt)

    -- Nothing of this page stands in a later one.
    phys-later :
        (j a : ℕ)
        → j < page_batch v (length buf)
        → next_page v ≤ a
        → a < next_page v + length (drop (page_batch v (length buf)) buf)
        → phys s.memory pd (v + j) ≢ phys (after v buf s).memory pd a
    phys-later j a lt low high e =
        let inside : a < v + length buf = later_range a low high in
        let same_frame : frame_of s.memory pd (v + j) ≡ frame_of s.memory pd a =
          omega (arith, e, phys-after a (omega (arith, b.range))) in
        other_page
          (b.pages.own (v + j) a (omega arith) (omega arith) (first_range a low) inside same_frame)
      where
        first_range : (a : ℕ) → next_page v ≤ a → v ≤ a
        first_range a low = omega (arith, b.range)

        other_page : mask_to_page (v + j) ≡ mask_to_page a → ⊥
        other_page e = omega (arith, b.range)

    pub IsData-after :
        IsData pd
          (next_page v)
          (next_page v + length (drop (page_batch v (length buf)) buf))
          (after v buf s)
    IsData-after = record {
      mapped = λ a low high z.
          b.pages.mapped a (first_range a low) (later_range a low high) (sym (same a low high) ∙ z);
      static = λ a low high.
          subst (λ f. vm_is_static_p s.vm_map f ≡ true) (sym (same a low high))
            (b.pages.static a (first_range a low) (later_range a low high));
      not_directory = λ a low high z.
          b.pages.not_directory a (first_range a low) (later_range a low high)
            (sym (same a low high) ∙ z);
      not_table = λ a i low high lt z.
          b.pages.not_table a i (first_range a low) (later_range a low high) lt
            (sym (table-after i lt) ∙ z ∙ same a low high);
      own = λ a c low high low' high' e.
          b.pages.own a c (first_range a low) (later_range a low high) (first_range c low')
            (later_range c low' high') (sym (same a low high) ∙ e ∙ same c low' high');
    }
      where
        first_range : (a : ℕ) → next_page v ≤ a → v ≤ a
        first_range a low = omega (arith, b.range)

        same :
            (a : ℕ)
            → next_page v ≤ a
            → a < next_page v + length (drop (page_batch v (length buf)) buf)
            → frame_of (after v buf s).memory pd a ≡ frame_of s.memory pd a
        same a low high =
            ap pte_get_paddr (walk-after a (omega (arith, b.range, later_range a low high)))

    -- One page, and then the rest
    pub Wrote-batch :
        (s2 : Machine)
        → Wrote pd (next_page v) (drop (page_batch v (length buf)) buf) free (after v buf s) s2
        → Wrote pd v buf free s s2
    Wrote-batch s2 w = record {
      space = w.space;
      same_map = w.same_map;
      entries = λ a lt. w.entries a lt ∙ walk-after a lt;
      tables = λ i lt. w.tables i lt ∙ table-after i lt;
      bytes = λ i c e. elim (Bool-cases (ltb i (page_batch v (length buf)))) [
        | inl here ↦
            w.other (phys s.memory pd (v + i))
              (λ a low high. phys-later i a (ltb→lt _ _ here) low high)
            ∙ ap (store_bytes s.memory (frame_at v s + (v - mask_to_page v)) (batch v buf))
                (phys-here i (ltb→lt _ _ here))
            ∙ store_bytes-inside s.memory (frame_at v s + (v - mask_to_page v)) (batch v buf) i
                (get_elem?-take (page_batch v (length buf)) i buf (ltb→lt _ _ here) ∙ e)
        | inr later ↦
            let lt : i < length buf = get_elem?-lt buf i e in
            subst (λ a. s2.memory a ≡ c) (moved i lt (not_here i later))
              (w.bytes (i - page_batch v (length buf)) c
                (get_elem?-drop (page_batch v (length buf)) i buf (not_here i later) ∙ e))
      ];
      other = λ q far.
          w.other q (λ a low high z.
            far a (omega (arith, b.range)) (later_range a low high)
              (z ∙ phys-after a (omega (arith, b.range, later_range a low high))))
          ∙ store_bytes-outside s.memory (frame_at v s + (v - mask_to_page v)) (batch v buf) q
              (outside q far);
    }
      where
        not_here :
            (i : ℕ) → ltb i (page_batch v (length buf)) ≡ false → page_batch v (length buf) ≤ i
        not_here i e = ground arith

        moved :
            (i : ℕ)
            → i < length buf
            → page_batch v (length buf) ≤ i
            → phys (after v buf s).memory pd (next_page v + (i - page_batch v (length buf)))
              ≡ phys s.memory pd (v + i)
        moved i lt le =
            phys-after (next_page v + (i - page_batch v (length buf))) (omega (arith, b.range))
            ∙ (λ j. phys s.memory pd (place j))
          where
            place : next_page v + (i - page_batch v (length buf)) ≡ v + i
            place = omega (arith, b.range)

        outside :
            (q : ℕ)
            → ((a : ℕ) → v ≤ a → a < v + length buf → q ≢ phys s.memory pd a)
            → (q < frame_at v s + (v - mask_to_page v))
              ⊎ (frame_at v s + (v - mask_to_page v) + length (batch v buf) ≤ q)
        outside q far = elim (Bool-cases (ltb q (frame_at v s + (v - mask_to_page v)))) [
          | inl low ↦ inl (ltb→lt _ _ low)
          | inr high ↦
              elim (Bool-cases
                (ltb q (frame_at v s + (v - mask_to_page v) + page_batch v (length buf)))) [
                  | inl inside ↦ absurd (
                      far (v + (q - (frame_at v s + (v - mask_to_page v)))) (omega arith)
                        (in_range q high inside)
                        (sym (
                          phys-here (q - (frame_at v s + (v - mask_to_page v)))
                            (in_batch q high inside)
                          ∙ again q high)))
                  | inr past ↦ inr (behind q past)
                ]
        ]
          where
            in_batch :
                (q : ℕ)
                → ltb q (frame_at v s + (v - mask_to_page v)) ≡ false
                → ltb q (frame_at v s + (v - mask_to_page v) + page_batch v (length buf)) ≡ true
                → q - (frame_at v s + (v - mask_to_page v)) < page_batch v (length buf)
            in_batch q h k = ground arith

            in_range :
                (q : ℕ)
                → ltb q (frame_at v s + (v - mask_to_page v)) ≡ false
                → ltb q (frame_at v s + (v - mask_to_page v) + page_batch v (length buf)) ≡ true
                → v + (q - (frame_at v s + (v - mask_to_page v))) < v + length buf
            in_range q h k = omega (arith, in_batch q h k)

            again :
                (q : ℕ)
                → ltb q (frame_at v s + (v - mask_to_page v)) ≡ false
                → frame_at v s + (v - mask_to_page v) + (q - (frame_at v s + (v - mask_to_page v)))
                  ≡ q
            again q h = ground arith

            behind :
                (q : ℕ)
                → ltb q (frame_at v s + (v - mask_to_page v) + page_batch v (length buf)) ≡ false
                → frame_at v s + (v - mask_to_page v) + length (batch v buf) ≤ q
            behind q h = ground (arith, length-take (page_batch v (length buf)) buf)
