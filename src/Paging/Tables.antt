-- ===== src/Paging/Tables.antt =====
-- kernel/arch/i386/paging/core.c and paging_types.h: page directories and tables in physical memory.
-- Where the kernel's own tables are in use, a physical address of a static region stands for the
-- virtual address that `vm_map_walk` gives for it. Masks and shifts are multiples and quotients.
use Prim.Native.Nat.{bit_or}
use yetanotheros.Common.{ℕ, ◌+◌, ◌*◌, ◌/◌, ◌%◌, Bool, ◌&&◌, not, List, ◌==◌, if◌then◌else◌}
use yetanotheros.Common.Outcome.{Outcome, ok, panic, ◌>>=◌, ◌>>◌, kassert}
use yetanotheros.Libc.Memory.{Bytes}
use yetanotheros.Palloc.Pages.{null, phys_null, page_size, Palloc, palloc, ptranslate}
use yetanotheros.Paging.Words.{load32, store32, kmemset}
use yetanotheros.Vm.Layout.{VmRegion, vm_is_static_p}

abbrev pub page_bit_present : ℕ
page_bit_present = 1

-- Whether PAGE_BIT_GLOBAL is set
abbrev pub is_global : ℕ → Bool
is_global e = e / 256 % 2 == 1

abbrev pub pte_construct : ℕ → ℕ → ℕ
pte_construct addr flags = addr / 4096 * 4096 + flags % 4096

abbrev pub pte_get_paddr : ℕ → ℕ
pte_get_paddr e = e / 4096 * 4096

abbrev pub mask_to_page : ℕ → ℕ
mask_to_page x = x / 4096 * 4096

abbrev pub get_pd_index : ℕ → ℕ
get_pd_index v = v / 4_194_304

abbrev pub get_pt_index : ℕ → ℕ
get_pt_index v = v / 4096 % 1024

-- `PD_LENGTH` and `PT_LENGTH`
abbrev pub pd_length : ℕ
pd_length = 1024

abbrev pub palloc_get_granularity : ℕ
palloc_get_granularity = page_size

-- What paging works on: the kernel's map, the address of its own directory, the allocator of pages
-- with its lock, and physical memory
pub record Machine : Type 0 where
  pub vm_map : List VmRegion
  pub phys_kernel_pd : ℕ
  pub palloc_lock_held : Bool
  pub pages : Palloc
  pub memory : Bytes

unfoldable pub translate_or_panic : ℕ → Machine → Outcome ℕ
translate_or_panic p s = do
  kassert s.pages.kernel_page_tables
  if vm_is_static_p s.vm_map p then ok p else panic

abbrev pub check_palloc_lock : Machine → Outcome (Unit {0})
check_palloc_lock s = if s.palloc_lock_held then panic else ok tt

-- `palloc` with the bytes of the page: it clears the page.
unfoldable pub take_page : Machine → Outcome (Machine × ℕ)
take_page s = palloc s.pages >>= λ r. ok (
  record s {
    pages = r.0;
    memory = if r.1 == phys_null then s.memory else kmemset r.1 0 page_size s.memory;
  },
  r.1,
)

-- `kmemset` of a page table at a virtual address; at NULL there is no page.
unfoldable pub clear_table : ℕ → Machine → Outcome Machine
clear_table pt s =
    if ptranslate s.pages pt == null
    then panic
    else ok (record s { memory = kmemset pt 0 (pd_length * 4) s.memory })

-- What `paging_map` does so that an entry of the directory points at a table
unfoldable pub ensure_table : ℕ → Machine → Outcome Machine
ensure_table pde s =
    if pte_get_paddr (load32 s.memory pde) == phys_null
    then (do
      kassert (pd_length * 4 == palloc_get_granularity)
      r ← take_page s
      s1 ← clear_table r.1 r.0
      ok (record s1 { memory = store32 s1.memory pde (pte_construct r.1 0) }))
    else ok s

-- What `paging_map` writes once the entry of the directory points at a table
unfoldable pub write_entries : ℕ → ℕ → ℕ → ℕ → Machine → Outcome Machine
write_entries pde pti p flags s = do
  let entry = bit_or (load32 s.memory pde) (bit_or flags page_bit_present)
  let s1 = record s { memory = store32 s.memory pde entry }
  pte ← translate_or_panic (pte_get_paddr entry) s1
  ok (record s1 {
    memory = store32 s1.memory (pte + 4 * pti) (pte_construct p (bit_or flags page_bit_present));
  })

-- `paging_map`
unfoldable pub paging_map : ℕ → ℕ → ℕ → ℕ → Machine → Outcome Machine
paging_map pd v p flags s = if is_global flags && not (pd == s.phys_kernel_pd) then panic else (do
  check_palloc_lock s
  kassert s.pages.kernel_page_tables
  base ← translate_or_panic pd s
  let pde = base + 4 * get_pd_index (mask_to_page v)
  if is_global (load32 s.memory pde) && not (pd == s.phys_kernel_pd)
      then panic
      else (ensure_table pde s >>= write_entries pde (get_pt_index (mask_to_page v)) p flags))

-- `paging_get_entry`
unfoldable pub paging_get_entry : ℕ → ℕ → Machine → Outcome ℕ
paging_get_entry pd v s = do
  kassert s.pages.kernel_page_tables
  base ← translate_or_panic pd s
  let pde = load32 s.memory (base + 4 * get_pd_index (mask_to_page v))
  if pte_get_paddr pde == phys_null then ok phys_null else (do
    pte ← translate_or_panic (pte_get_paddr pde) s
    ok (load32 s.memory (pte + 4 * get_pt_index (mask_to_page v))))

-- `paging_get`
unfoldable pub paging_get : ℕ → ℕ → Machine → Outcome ℕ
paging_get pd v s = paging_get_entry pd v s >>= λ e. ok (pte_get_paddr e)
