-- ===== src/Paging/ExchangeLaws.antt =====
-- Writing to another address space, page after page.
use yetanotheros.Common.{
  get_elem?-lt, ℕ, zero, suc, ◌+◌, ◌^◌, ◌<◌, ◌≤◌, ◌≡◌, ◌⊎◌, inl, inr, refl, ◌∙◌, true, false, some,
  List, ◌==◌, length, drop, get_elem?, length-drop, arith, Bool-cases,
}
use yetanotheros.Common.Outcome.{ok, bind_ok}
use yetanotheros.Paging.Tables.{Machine}
use yetanotheros.Paging.Space.{IsSpace, translate-static, paging_get-walk}
use yetanotheros.Paging.Reserve.{frame_of}
use yetanotheros.Paging.Exchange.{page_batch, next_page, vmwrite_loop}
use yetanotheros.Paging.PageWrite.{Wrote, Batch, after, after-IsSpace, IsData-after, Wrote-batch}
use yetanotheros.Paging.DataPages.{IsData, AllBytes, AllBytes-drop}

module _ (pd to : ℕ) (free : List ℕ) (below : to + 4096 < 2 ^ 32) where
  -- The loop ends, and everything is written.
  pub vmwrite_loop-Wrote :
      (fuel v : ℕ) (buf : List ℕ) (s : Machine)
      → length buf < fuel
      → v < 2 ^ 32
      → (length buf ≡ 0) ⊎ (v + length buf ≤ to)
      → IsSpace pd s free
      → IsData pd v (v + length buf) s
      → AllBytes buf
      → (s' : Machine) × (vmwrite_loop fuel pd v buf s ≡ ok s') × Wrote pd v buf free s s'
  unfolding vmwrite_loop
  vmwrite_loop-Wrote zero v buf s enough word range h d small = absurd (omega arith)
  vmwrite_loop-Wrote (suc fuel) v buf s enough word range h d small =
      elim (Bool-cases (length buf == 0)) [
        | inl none_left ↦ (
          s,
          rw (vmwrite_loop, none_left) refl,
          record {
            space = h;
            same_map = refl;
            entries = λ a lt. refl;
            tables = λ i lt. refl;
            bytes = λ i c e. absurd (empty i c none_left e);
            other = λ q far. refl;
          },
        )
        | inr more ↦
            let b : Batch pd to free below v buf s = record {
              space = h;
              range = in_range more range;
              more = positive more;
              pages = d;
              small = small;
            } in
            let (s2, runs, w) =
              vmwrite_loop-Wrote fuel (next_page v) (drop (page_batch v (length buf)) buf)
                (after pd to free below v buf s) (shorter more) (omega arith)
                (range_after (in_range more range)) (after-IsSpace pd to free below v buf s b)
                (IsData-after pd to free below v buf s b)
                (AllBytes-drop (page_batch v (length buf)) buf small) in
            (s2, page_round s2 more runs, Wrote-batch pd to free below v buf s b s2 w)
      ]
    where
      empty : (i c : ℕ) → (length buf == 0) ≡ true → get_elem? buf i ≡ some c → ⊥
      empty i c none_left e = ground (arith, get_elem?-lt buf i e)

      positive : (length buf == 0) ≡ false → 0 < length buf
      positive more = ground arith

      in_range :
          (length buf == 0) ≡ false → (length buf ≡ 0) ⊎ (v + length buf ≤ to) → v + length buf ≤ to
      in_range more r = ground arith

      shorter : (length buf == 0) ≡ false → length (drop (page_batch v (length buf)) buf) < fuel
      shorter more = omega (arith, positive more, length-drop (page_batch v (length buf)) buf)

      range_after :
          v + length buf ≤ to
          → (length (drop (page_batch v (length buf)) buf) ≡ 0)
            ⊎ (next_page v + length (drop (page_batch v (length buf)) buf) ≤ to)
      range_after r = ground (arith, length-drop (page_batch v (length buf)) buf)

      page_round :
          (s2 : Machine)
          → (length buf == 0) ≡ false
          → vmwrite_loop fuel pd
              (next_page v)
              (drop (page_batch v (length buf)) buf)
              (after pd to free below v buf s)
            ≡ ok s2
          → vmwrite_loop (suc fuel) pd v buf s ≡ ok s2
      page_round s2 more runs =
          rw (vmwrite_loop, more)
            (bind_ok _ (paging_get-walk pd v s free h word)
              ∙ bind_ok _ (
                  translate-static s (frame_of s.memory pd v) h.pages.tables
                    (d.static v (omega arith) (omega (arith, positive more))))
              ∙ runs)
