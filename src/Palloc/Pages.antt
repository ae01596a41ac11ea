-- ===== src/Palloc/Pages.antt =====
-- kernel/arch/i386/palloc.c: free pages as a doubly linked list through the pages themselves.
use yetanotheros.Common.{
  ℕ, zero, suc, ◌+◌, ◌-◌, ◌*◌, ◌%◌, ◌^◌, Bool, true, false, ◌==◌, if◌then◌else◌, ltb, leb, ◌&&◌,
  not,
}
use yetanotheros.Common.Outcome.{Outcome, ok, panic, ◌>>=◌, ◌>>◌, kassert}
use yetanotheros.Common.Store.{write}

abbrev pub null : ℕ
null = 0

-- `PHYS_NULL`
abbrev pub phys_null : ℕ
phys_null = 0

abbrev pub palloc_page_magic : ℕ
palloc_page_magic = 0x1234_5678

abbrev pub page_size : ℕ
page_size = 4096

-- `struct page`: the first words of a page in the region. The rest of a page is not in the model.
pub record Page : Type 0 where
  pub magic : ℕ
  pub prev : ℕ
  pub next : ℕ

-- The static variables of palloc.c, the region's bases and size, the start of every page, and what
-- the operations ask of the machine.
pub record Palloc : Type 0 where
  pub pbase : ℕ
  pub vbase : ℕ
  pub size : ℕ
  pub first_free_page : ℕ
  pub remaining_pages : ℕ
  pub page : ℕ → Page
  pub kernel_page_tables : Bool
  pub yaos2_initialized : Bool

abbrev pub is_mappable : Palloc → ℕ → Bool
is_mappable s p = leb s.pbase p && ltb p (s.pbase + s.size)

-- `vtranslate`
unfoldable pub vtranslate : Palloc → ℕ → Outcome ℕ
vtranslate s v = do
  kassert (leb s.vbase v && ltb v (s.vbase + s.size))
  ok (s.pbase + (v - s.vbase))

-- `ptranslate`
unfoldable pub ptranslate : Palloc → ℕ → ℕ
ptranslate s p = if is_mappable s p then s.vbase + (p - s.pbase) else null

-- `palloc`; `kmemset` clears the page that is handed out.
unfoldable pub palloc : Palloc → Outcome (Palloc × ℕ)
unfolding vtranslate
palloc s = do
  kassert s.kernel_page_tables
  let page = s.first_free_page
  if page == null then ok (s, phys_null) else do
    kassert ((s.page page).magic == palloc_page_magic)
    let next = (s.page page).next
    let s1 = record s {
      first_free_page = next;
      page =
          if next == null then s.page else write s.page next (record (s.page next) { prev = null });
    }
    p ← vtranslate s page
    ok (
      record s1 {
        remaining_pages = (s.remaining_pages + 2 ^ 32 - 1) % 2 ^ 32;
        page = write s1.page page (record { magic = 0; prev = 0; next = 0 });
      },
      p,
    )

-- `pfree`
unfoldable pub pfree : ℕ → Palloc → Outcome Palloc
unfolding ptranslate
pfree p s = do
  kassert (is_mappable s p)
  kassert s.kernel_page_tables
  let page = ptranslate s p
  let filled =
      write s.page page
        (record { magic = palloc_page_magic; prev = null; next = s.first_free_page })
  ok (record s {
    first_free_page = page;
    remaining_pages = (s.remaining_pages + 1) % 2 ^ 32;
    page =
        if s.first_free_page == null
        then filled
        else write filled s.first_free_page (record (filled s.first_free_page) { prev = page });
  })

-- The loop of `palloc_add_free_region`
unfoldable pub add_pages : ℕ → ℕ → ℕ → Palloc → Outcome Palloc
add_pages zero from to s = panic
add_pages (suc fuel) from to s = elim (ltb from to) [
  | false ↦ ok s
  | true ↦ elim (is_mappable s from) [
    | false ↦ add_pages fuel (from + page_size) to s
    | true ↦ elim ((s.page (ptranslate s from)).magic == palloc_page_magic) [
      | true ↦ add_pages fuel (from + page_size) to s
      | false ↦ pfree from s >>= λ s1. add_pages fuel (from + page_size) to s1
    ]
  ]
]

-- `palloc_add_free_region`, with as many rounds as there are addresses and one more
unfoldable pub palloc_add_free_region : ℕ → ℕ → Palloc → Outcome Palloc
unfolding add_pages
palloc_add_free_region from to s = do
  kassert (not s.yaos2_initialized)
  kassert (from % page_size == 0)
  kassert (to % page_size == 0)
  add_pages (suc (to - from)) from to s

-- `palloc_get_remaining`
unfoldable pub palloc_get_remaining : Palloc → ℕ
palloc_get_remaining s = s.remaining_pages * page_size % 2 ^ 32
