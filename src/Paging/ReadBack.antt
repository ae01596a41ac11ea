-- ===== src/Paging/ReadBack.antt =====
-- Reading the bytes of another address space, and reading back what was written there.
use yetanotheros.Common.{
  get_elem?-lt, ℕ, zero, suc, ◌+◌, ◌-◌, ◌%◌, ◌^◌, ◌<◌, ◌≤◌, ◌≡◌, ◌≢◌, ◌⊎◌, inl, inr, refl, sym, ap,
  ◌∙◌, true, false, some, List, [], ◌∷◌, ◌++◌, ◌==◌, length, get_elem?, arith, Bool-cases,
}
use yetanotheros.Common.Outcome.{ok, kassert, bind_ok}
use yetanotheros.Buffer.Ring.{slice}
use yetanotheros.Paging.Tables.{Machine, pte_get_paddr, mask_to_page, paging_get}
use yetanotheros.Paging.Space.{IsSpace, translate-static, paging_get-walk}
use yetanotheros.Paging.Reserve.{frame_of, walk-page}
use yetanotheros.Paging.Exchange.{page_batch, next_page, vmread_loop, vmread, vmwrite}
use yetanotheros.Paging.PageWrite.{Wrote}
use yetanotheros.Paging.ExchangeLaws.{vmwrite_loop-Wrote}
use yetanotheros.Paging.DataPages.{phys, IsData, AllBytes}
use yetanotheros.Vm.Layout.{vm_is_static_p}
use yetanotheros.Paging.View.{view, slice-view, view-append, view-buf}

append_assoc : (xs ys zs : List ℕ) → (xs ++ ys) ++ zs ≡ xs ++ (ys ++ zs)
append_assoc [] ys zs = refl
append_assoc (x ∷ xs) ys zs = ap (λ l. x ∷ l) (append_assoc xs ys zs)

append-nil : (xs : List ℕ) → xs ++ [] ≡ xs
append-nil [] = refl
append-nil (x ∷ xs) = ap (λ l. x ∷ l) (append-nil xs)

module _ (pd from to : ℕ) (free : List ℕ) (s : Machine) (below : to + 4096 < 2 ^ 32)
    (h : IsSpace pd s free)
    (static : (a : ℕ)
      → from ≤ a
      → a < to
      → vm_is_static_p s.vm_map (frame_of s.memory pd a) ≡ true) where
  one_page :
      (v num : ℕ)
      → slice s.memory (frame_of s.memory pd v + (v - mask_to_page v)) (page_batch v num)
        ≡ view s.memory pd v (page_batch v num)
  one_page v num =
      slice-view s.memory pd v (frame_of s.memory pd v + (v - mask_to_page v)) (page_batch v num)
        (λ j lt.
          ap (λ f. f + (v + j) % 4096)
            (ap pte_get_paddr (walk-page s.memory pd (v + j) v (within j lt)))
          ∙ offset (frame_of s.memory pd v) j lt)
    where
      within : (j : ℕ) → j < page_batch v num → mask_to_page (v + j) ≡ mask_to_page v
      within j lt = omega arith

      offset : (f j : ℕ) → j < page_batch v num → f + (v + j) % 4096 ≡ f + (v - mask_to_page v) + j
      offset f j lt = omega arith

  rest_view :
      (v num : ℕ)
      → v + num ≤ to
      → view s.memory pd v (page_batch v num)
          ++ view s.memory pd (next_page v) (num - page_batch v num)
        ≡ view s.memory pd v num
  unfolding view
  rest_view v num range = elim (Bool-cases (num - page_batch v num == 0)) [
    | inl all ↦
        ap (λ k. view s.memory pd v (page_batch v num) ++ view s.memory pd (next_page v) k)
          (none_left all)
        ∙ append-nil (view s.memory pd v (page_batch v num))
        ∙ (λ i. view s.memory pd v (whole all i))
    | inr more ↦
        (λ i.
          view s.memory pd v (page_batch v num)
          ++ view s.memory pd (follows more i) (num - page_batch v num))
        ∙ view-append s.memory pd v (page_batch v num) (num - page_batch v num)
        ∙ (λ i. view s.memory pd v (total i))
  ]
    where
      none_left : (num - page_batch v num == 0) ≡ true → num - page_batch v num ≡ 0
      none_left e = ground arith

      whole : (num - page_batch v num == 0) ≡ true → page_batch v num ≡ num
      whole e = omega (arith, none_left e)

      follows : (num - page_batch v num == 0) ≡ false → next_page v ≡ v + page_batch v num
      follows e = ground arith

      total : page_batch v num + (num - page_batch v num) ≡ num
      total = omega arith

  -- The loop ends with the bytes of the range.
  vmread_loop-view :
      (fuel v num : ℕ) (out : List ℕ)
      → num < fuel
      → v < 2 ^ 32
      → (num ≡ 0) ⊎ (v + num ≤ to)
      → from ≤ v
      → vmread_loop fuel pd v num out s ≡ ok (out ++ view s.memory pd v num)
  unfolding vmread_loop view
  vmread_loop-view zero v num out enough word range after = absurd (omega arith)
  vmread_loop-view (suc fuel) v num out enough word range after = elim (Bool-cases (num == 0)) [
    | inl all ↦
        rw (vmread_loop, all)
          (ap ok (sym (append-nil out) ∙ ap (λ k. out ++ view s.memory pd v k) (zero_of all)))
    | inr more ↦
        rw (vmread_loop, more)
          (bind_ok _ (paging_get-walk pd v s free h word)
            ∙ bind_ok _ (
                translate-static s (frame_of s.memory pd v) h.pages.tables
                  (static v after (in_range more)))
            ∙ vmread_loop-view fuel (next_page v) (num - page_batch v num)
                (out
                  ++ slice s.memory (frame_of s.memory pd v + (v - mask_to_page v))
                      (page_batch v num))
                (shorter more) (omega arith) (range_after (range_of more))
                (omega (arith, range_of more))
            ∙ ap ok (
                append_assoc out _ _
                ∙ ap (λ l. out ++ l)
                    (ap (λ l. l ++ view s.memory pd (next_page v) (num - page_batch v num))
                        (one_page v num)
                      ∙ rest_view v num (range_of more))))
  ]
    where
      zero_of : (num == 0) ≡ true → 0 ≡ num
      zero_of e = ground arith

      range_of : (num == 0) ≡ false → v + num ≤ to
      range_of more = ground arith

      in_range : (num == 0) ≡ false → v < to
      in_range more = ground arith

      shorter : (num == 0) ≡ false → num - page_batch v num < fuel
      shorter more = ground arith

      range_after :
          v + num ≤ to
          → (num - page_batch v num ≡ 0) ⊎ (next_page v + (num - page_batch v num) ≤ to)
      range_after r = ground arith

-- Writing to pages of data and reading the same range back: both return, the bytes are those that
-- were written, no byte of memory outside the range changes, and every address is mapped as before.
-- The space is well-formed, and the range ends a page before the end of memory.
pub vmread-vmwrite :
    (pd v : ℕ) (buf free : List ℕ) (s : Machine)
    → v + length buf + 4096 < 2 ^ 32
    → AllBytes buf
    → IsSpace pd s free
    → IsData pd v (v + length buf) s
    → (s' : Machine) × (vmwrite pd v buf s ≡ ok s')
      × (vmread pd v (length buf) s' ≡ ok buf)
      × ((q : ℕ)
          → ((a : ℕ) → v ≤ a → a < v + length buf → q ≢ phys s.memory pd a)
          → s'.memory q ≡ s.memory q)
      × ((a g : ℕ) → a < 2 ^ 32 → paging_get pd a s ≡ ok g → paging_get pd a s' ≡ ok g)
unfolding vmwrite vmread
vmread-vmwrite pd v buf free s below small h d =
    let (s', runs, w) =
      vmwrite_loop-Wrote pd (v + length buf) free below (suc (length buf)) v buf s (omega arith)
        (omega arith) (inr (omega arith)) h d small in
    (
      s',
      bind_ok _ (ap kassert h.pages.tables) ∙ runs,
      bind_ok _ (ap kassert w.space.pages.tables)
          ∙ vmread_loop-view pd v (v + length buf) free s' below w.space (static' s' w)
              (suc (length buf)) v (length buf) [] (omega arith) (omega arith) (inr (omega arith))
              (omega arith)
          ∙ ap ok (view-buf s'.memory pd v buf (written_at s' w)),
      w.other,
      λ a g lt before.
          paging_get-walk pd a s' free w.space lt
          ∙ ap ok (ap pte_get_paddr (w.entries a lt))
          ∙ sym (paging_get-walk pd a s free h lt)
          ∙ before,
    )
  where
    static' :
        (s' : Machine)
        → Wrote pd v buf free s s'
        → (a : ℕ) → v ≤ a
        → a < v + length buf
        → vm_is_static_p s'.vm_map (frame_of s'.memory pd a) ≡ true
    static' s' w a low high =
        (λ i. vm_is_static_p (w.same_map i) (pte_get_paddr (w.entries a (omega arith) i)))
        ∙ d.static a low high

    written_at :
        (s' : Machine)
        → Wrote pd v buf free s s'
        → (i b : ℕ) → get_elem? buf i ≡ some b
        → s'.memory (phys s'.memory pd (v + i)) ≡ b
    written_at s' w i b e =
        ap (λ e. s'.memory (pte_get_paddr e + (v + i) % 4096))
          (w.entries (v + i) (omega (arith, get_elem?-lt buf i e)))
        ∙ w.bytes i b e
