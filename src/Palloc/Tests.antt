-- ===== src/Palloc/Tests.antt =====
-- The physical allocator over a region of three pages, and its theorems there.
use yetanotheros.Common.{ℕ, ◌≡◌, refl, true, false, List, [], ◌∷◌, inl, inr, arith}
use yetanotheros.Common.Outcome.{ok, ◌>>=◌}
use yetanotheros.Palloc.Pages.{Palloc, palloc, pfree, palloc_add_free_region}
use yetanotheros.Palloc.FreeList.{IsPalloc, pfree-palloc, put_back, put_back-IsPalloc}
use yetanotheros.Palloc.Regions.{palloc_add_free_region-IsPalloc}

abbrev three_pages : Palloc
three_pages = record {
  pbase = 0x10_0000;
  vbase = 0xc010_0000;
  size = 0x3000;
  first_free_page = 0;
  remaining_pages = 0;
  page = λ _. record { magic = 0; prev = 0; next = 0 };
  kernel_page_tables = true;
  yaos2_initialized = false;
}

three_pages-IsPalloc : IsPalloc three_pages []
three_pages-IsPalloc = record {
  tables = refl;
  above_null = omega arith;
  free = refl;
  counted = refl;
}

one_free-IsPalloc : IsPalloc (put_back 0xc010_1000 three_pages) (0xc010_1000 ∷ [])
one_free-IsPalloc =
    put_back-IsPalloc three_pages 0xc010_1000 [] three_pages-IsPalloc (omega arith, omega arith)
      (λ h. h)

pfree-palloc_example :
    (s' : Palloc) × ((pfree 0x10_0000 (put_back 0xc010_1000 three_pages) >>= palloc)
      ≡ ok (s', 0x10_0000))
    × IsPalloc s' (0xc010_1000 ∷ [])
pfree-palloc_example =
    pfree-palloc (put_back 0xc010_1000 three_pages) 0x10_0000 (0xc010_1000 ∷ []) one_free-IsPalloc
      (omega arith) (omega arith) (λ h. elim h [ inl e ↦ absurd (omega arith) | inr n ↦ n ])

palloc_add_free_region-IsPalloc_example :
    (s' : Palloc) × (vs' : List ℕ) × (palloc_add_free_region 0x10_0000 0x10_4000 three_pages
      ≡ ok s')
    × IsPalloc s' vs'
palloc_add_free_region-IsPalloc_example =
    palloc_add_free_region-IsPalloc 0x10_0000 0x10_4000 three_pages [] three_pages-IsPalloc refl
      refl refl
