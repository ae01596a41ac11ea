-- ===== src/Paging/BreakLaws.antt =====
-- What moving the break of a process does to its address space.
use yetanotheros.Common.{
  ℕ, ◌+◌, ◌-◌, ◌*◌, ◌/◌, ◌^◌, ◌<◌, ◌≤◌, ◌≡◌, ◌≢◌, refl, sym, ap, ◌∙◌, true, false, List, length,
  arith, le→ltb,
}
use yetanotheros.Common.Outcome.{ok, kassert, bind_ok, ok-injective}
use yetanotheros.Palloc.Pages.{palloc_get_remaining}
use yetanotheros.Paging.Tables.{is_global, mask_to_page, paging_get}
use yetanotheros.Paging.Space.{IsSpace, paging_get-walk}
use yetanotheros.Paging.Break.{Space, finish_brk, unsafe_brk, proc_brk}
use yetanotheros.Paging.Reserve.{frame_of, Keeps}
use yetanotheros.Vm.Layout.{vm_get_pflags}
use yetanotheros.Paging.Growth.{IsPrivate, reserve_loop-Keeps}

-- Moving the break succeeds, and afterwards the break is there and every address up to the end of
-- its page is mapped, from the page of the break before; what was mapped is mapped to the same
-- page, and the space is well-formed. The address is not below the base of the break or in a global region of the kernel, no more
-- is asked for than the allocator has, there are two free pages for each page of the range, the
-- directory's entries for it are not the kernel's, and the last page of memory is not in it.
pub proc_brk-maps :
    (v : ℕ) (s : Space) (free : List ℕ)
    → IsSpace s.arch.pd s.machine free
    → mask_to_page v + 4096 < 2 ^ 32
    → s.arch.cur_vbreak < 2 ^ 32
    → s.arch.vbreak ≤ v
    → is_global (vm_get_pflags s.machine.vm_map v) ≡ false
    → v - s.arch.vbreak ≤ palloc_get_remaining s.machine.pages
    → IsPrivate s.arch.pd (mask_to_page s.arch.cur_vbreak) (mask_to_page v) s.machine
    → 2 * ((mask_to_page v + 4096 - mask_to_page s.arch.cur_vbreak) / 4096) ≤ length free
    → (s' : Space) × (left : List ℕ) × (proc_brk v s ≡ ok (s', true))
      × IsSpace s.arch.pd s'.machine left
      × (s'.arch.cur_vbreak ≡ v)
      × ((a : ℕ)
          → mask_to_page s.arch.cur_vbreak ≤ a
          → a < mask_to_page v + 4096
          → (g : ℕ) × (paging_get s.arch.pd a s'.machine ≡ ok g) × (g ≢ 0))
      × ((a g : ℕ)
          → a < 2 ^ 32
          → paging_get s.arch.pd a s.machine ≡ ok g
          → g ≢ 0
          → paging_get s.arch.pd a s'.machine ≡ ok g)
unfolding proc_brk unsafe_brk
proc_brk-maps v s free h below word base private_v fits private enough =
    let (s1, left, runs, keeps, mapped) =
      reserve_loop-Keeps s.arch.pd (mask_to_page v) (omega arith) below (v / 4096 + 2)
        (mask_to_page s.arch.cur_vbreak) s free refl (omega arith) (omega arith) (omega arith)
        private h enough in
    (
      finish_brk v s1,
      left,
      bind_ok _ (ap kassert h.pages.tables)
          ∙ rw
              (
                le→ltb v s.arch.vbreak base,
                private_v,
                le→ltb (palloc_get_remaining s.machine.pages) (v - s.arch.vbreak) fits,
              )
              (bind_ok _ runs),
      keeps.space,
      refl,
      λ a low high. (
        frame_of s1.machine.memory s.arch.pd a,
        paging_get-walk s.arch.pd a s1.machine left keeps.space (omega arith),
        mapped a low high,
      ),
      λ a g lt before used.
          paging_get-walk s.arch.pd a s1.machine left keeps.space lt
          ∙ ap ok (
              kept_frame s1 left keeps a g lt
                (ok-injective (sym (paging_get-walk s.arch.pd a s.machine free h lt) ∙ before))
                used),
    )
  where
    kept_frame :
        (s1 : Space) (left : List ℕ)
        → Keeps s.arch.pd s s1 left
        → (a g : ℕ) → a < 2 ^ 32
        → frame_of s.machine.memory s.arch.pd a ≡ g
        → g ≢ 0
        → frame_of s1.machine.memory s.arch.pd a ≡ g
    kept_frame s1 left keeps a g lt e ne = keeps.kept a lt (λ z. ne (sym e ∙ z)) ∙ e
