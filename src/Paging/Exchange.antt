-- ===== src/Paging/Exchange.antt =====
-- kernel/arch/i386/paging/core.c: `vmxchg`, the bytes of another address space, page by page.
use Prim.Native.Nat.{min}
use yetanotheros.Common.{
  ℕ, zero, suc, ◌+◌, ◌-◌, ◌%◌, ◌^◌, true, false, List, [], ◌++◌, ◌==◌, length, take, drop,
}
use yetanotheros.Common.Outcome.{Outcome, ok, panic, ◌>>=◌, ◌>>◌, kassert}
use yetanotheros.Buffer.Ring.{slice}
use yetanotheros.Palloc.Pages.{page_size}
use yetanotheros.Paging.Tables.{Machine, mask_to_page, translate_or_panic, paging_get}
use yetanotheros.Vfs.Transfer.{store_bytes}

-- How much of `num` bytes stands in the page of `v`
abbrev pub page_batch : ℕ → ℕ → ℕ
page_batch v num = min (page_size - (v - mask_to_page v)) num

abbrev pub next_page : ℕ → ℕ
next_page v = (mask_to_page v + page_size) % 2 ^ 32

-- The loop of `vmxchg` for reading; `out` is what has been read.
unfoldable pub vmread_loop : ℕ → ℕ → ℕ → ℕ → List ℕ → Machine → Outcome (List ℕ)
vmread_loop zero pd v num out s = panic
vmread_loop (suc fuel) pd v num out s = elim (num == 0) [
  | true ↦ ok out
  | false ↦ paging_get pd v s >>= λ p. translate_or_panic p s >>= λ accessible.
      vmread_loop fuel pd (next_page v) (num - page_batch v num)
        (out ++ slice s.memory (accessible + (v - mask_to_page v)) (page_batch v num)) s
]

-- The loop of `vmxchg` for writing the bytes `buf`
unfoldable pub vmwrite_loop : ℕ → ℕ → ℕ → List ℕ → Machine → Outcome Machine
vmwrite_loop zero pd v buf s = panic
vmwrite_loop (suc fuel) pd v buf s = elim (length buf == 0) [
  | true ↦ ok s
  | false ↦ paging_get pd v s >>= λ p. translate_or_panic p s >>= λ accessible.
      vmwrite_loop fuel pd (next_page v) (drop (page_batch v (length buf)) buf) (record s {
        memory =
            store_bytes s.memory (accessible + (v - mask_to_page v))
              (take (page_batch v (length buf)) buf);
      })
]

-- `vmread`; a round of the loop takes a byte at least.
unfoldable pub vmread : ℕ → ℕ → ℕ → Machine → Outcome (List ℕ)
vmread pd v num s = kassert s.pages.kernel_page_tables >> vmread_loop (suc num) pd v num [] s

-- `vmwrite`
unfoldable pub vmwrite : ℕ → ℕ → List ℕ → Machine → Outcome Machine
vmwrite pd v buf s =
    kassert s.pages.kernel_page_tables >> vmwrite_loop (suc (length buf)) pd v buf s
