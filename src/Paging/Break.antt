-- ===== src/Paging/Break.antt =====
-- kernel/arch/i386/proc.c: the memory of a process and its break. The mutex of the page directory
-- makes each call one step. Telling the other processors of a change is left out.
use yetanotheros.Common.{
  ℕ, zero, suc, ◌+◌, ◌-◌, ◌/◌, ◌%◌, ◌^◌, Bool, true, false, ◌||◌, not, ◌==◌, if◌then◌else◌, ltb,
  leb,
}
use yetanotheros.Common.Outcome.{Outcome, ok, panic, ◌>>=◌, ◌>>◌, kassert}
use yetanotheros.Palloc.Pages.{phys_null, page_size, palloc_get_remaining}
use yetanotheros.Paging.Tables.{
  Machine, page_bit_present, is_global, mask_to_page, check_palloc_lock, take_page, paging_map,
  paging_get,
}
use yetanotheros.Vm.Layout.{vm_get_pflags}

-- `struct arch_proc`
pub record ArchProc : Type 0 where
  pub pd : ℕ
  pub vfrom : ℕ
  pub vto : ℕ
  pub vstack : ℕ
  pub stack_size : ℕ
  pub venvironment : ℕ
  pub vbreak : ℕ
  pub cur_vbreak : ℕ

-- A process on the machine
pub record Space : Type 0 where
  pub arch : ArchProc
  pub machine : Machine

abbrev pub uvnull : ℕ
uvnull = 0

abbrev pub page_bit_rw : ℕ
page_bit_rw = 2

abbrev pub page_bit_user : ℕ
page_bit_user = 4

abbrev pub vm_user : ℕ
vm_user = 1

abbrev pub vm_write : ℕ
vm_write = 2

-- Paging flags for flags
abbrev pub page_flags : ℕ → ℕ
page_flags flags =
    page_bit_present
    + (if flags % 2 == 1 then page_bit_user else 0)
    + (if flags / 2 % 2 == 1 then page_bit_rw else 0)

-- How `unsafe_vmreserve` widens the range in use
abbrev pub widen : ℕ → ArchProc → ArchProc
widen v a =
    let from : ℕ = if a.vfrom == uvnull then v else a.vfrom in
    let to : ℕ = if a.vto == uvnull then v else a.vto in
    record a { vfrom = if ltb v from then v else from; vto = if ltb to v then v else to }

-- `unsafe_vmreserve`
unfoldable pub unsafe_vmreserve : ℕ → ℕ → Space → Outcome Space
unsafe_vmreserve v flags s = paging_get s.arch.pd (mask_to_page v) s.machine >>= λ p.
    if not (p == phys_null)
    then ok s
    else (take_page s.machine >>= λ r.
        paging_map s.arch.pd (mask_to_page v) r.1 (page_flags flags) r.0 >>= λ m.
        ok (record { arch = widen (mask_to_page v) s.arch; machine = m }))

-- `proc_vmreserve`
unfoldable pub proc_vmreserve : ℕ → ℕ → Space → Outcome Space
proc_vmreserve v flags s = do
  kassert s.machine.pages.kernel_page_tables
  check_palloc_lock s.machine
  unsafe_vmreserve v flags s

-- `proc_set_stack`, `proc_set_env`, `proc_get_env` and `proc_set_break`
unfoldable pub proc_set_stack : ℕ → ℕ → Space → Space
proc_set_stack v size s = record s { arch = record s.arch { vstack = v; stack_size = size } }

unfoldable pub proc_set_env : ℕ → Space → Space
proc_set_env v s = record s { arch = record s.arch { venvironment = v } }

unfoldable pub proc_get_env : Space → ℕ
proc_get_env s = s.arch.venvironment

unfoldable pub proc_set_break : ℕ → Space → Space
proc_set_break v s = record s { arch = record s.arch { vbreak = v; cur_vbreak = v } }

-- The loop of `unsafe_brk`
unfoldable pub reserve_loop : ℕ → ℕ → ℕ → Space → Outcome Space
reserve_loop zero vfrom vto s = panic
reserve_loop (suc fuel) vfrom vto s = elim (leb vfrom vto) [
  | false ↦ ok s
  | true ↦ unsafe_vmreserve vfrom (vm_user + vm_write) s >>= λ s1.
      reserve_loop fuel ((vfrom + page_size) % 2 ^ 32) vto s1
]

abbrev pub finish_brk : ℕ → Space → Space
finish_brk v s = record s {
  arch = record s.arch {
    cur_vbreak = v;
    vto = if ltb s.arch.vto (mask_to_page v) then mask_to_page v else s.arch.vto;
  };
}

-- `unsafe_brk`: whether it succeeds. The loop has a round for each page and two more.
unfoldable pub unsafe_brk : ℕ → Space → Outcome (Space × Bool)
unsafe_brk v s =
    if ltb v s.arch.vbreak || is_global (vm_get_pflags s.machine.vm_map v)
    then ok (s, false)
    else if ltb (palloc_get_remaining s.machine.pages) (v - s.arch.vbreak)
    then ok (s, false)
    else (reserve_loop (v / page_size + 2) (mask_to_page s.arch.cur_vbreak) (mask_to_page v) s
        >>= λ s1. ok (finish_brk v s1, true))

-- `proc_brk`
unfoldable pub proc_brk : ℕ → Space → Outcome (Space × Bool)
proc_brk v s = kassert s.machine.pages.kernel_page_tables >> unsafe_brk v s

-- -EUNSPEC as an address
abbrev pub no_address : ℕ
no_address = 2 ^ 32 - 2

-- `proc_sbrk`, with the difference in two's complement: the break from before, or -EUNSPEC
unfoldable pub proc_sbrk : ℕ → Space → Outcome (Space × ℕ)
proc_sbrk diff s = do
  kassert s.machine.pages.kernel_page_tables
  r ← unsafe_brk ((s.arch.cur_vbreak + diff) % 2 ^ 32) s
  ok (r.0, if r.1 then s.arch.cur_vbreak else no_address)
