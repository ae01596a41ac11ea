-- ===== src/Palloc/Regions.antt =====
-- `palloc_add_free_region` and the list of free pages.
use yetanotheros.Common.{
  ℕ, zero, suc, ◌+◌, ◌-◌, ◌%◌, ◌≡◌, ◌<◌, ◌≤◌, refl, sym, subst, ap, true, false, List, [], ◌∷◌,
  ◌==◌, ltb, Has, arith, inl, inr, eq→==, Bool-cases, ==→ne, ltb→lt, not,
}
use yetanotheros.Common.Outcome.{ok, kassert}
use yetanotheros.Palloc.Pages.{
  null, palloc_page_magic, page_size, Page, Palloc, is_mappable, ptranslate, add_pages,
  palloc_add_free_region,
}
use yetanotheros.Palloc.FreeList.{IsPalloc, FreeFrom, pfree_lem, put_back, put_back-IsPalloc}

-- A free page has the magic number.
FreeFrom-magic :
    (vbase size : ℕ) (m : ℕ → Page) (prev head v : ℕ) (vs : List ℕ)
    → FreeFrom vbase size m prev head vs
    → Has v vs
    → (m v).magic ≡ palloc_page_magic
FreeFrom-magic vbase size m prev head v [] c h = absurd h
FreeFrom-magic vbase size m prev head v (w ∷ ws) c (inl e) =
    subst (λ x. (m x).magic ≡ palloc_page_magic) (sym e) c.2
FreeFrom-magic vbase size m prev head v (w ∷ ws) c (inr h) =
    FreeFrom-magic vbase size m w (m w).next v ws c.5 h

mappable-bounds :
    (s : Palloc) (p : ℕ) → is_mappable s p ≡ true → (s.pbase ≤ p) × (p < s.pbase + s.size)
mappable-bounds s p h = ground arith

ptranslate_lem :
    (s : Palloc) (p : ℕ) → is_mappable s p ≡ true → ptranslate s p ≡ s.vbase + (p - s.pbase)
unfolding ptranslate
ptranslate_lem s p h = rw h refl

abbrev Added : ℕ → ℕ → ℕ → Palloc → Type 0
Added fuel from to s =
    (s' : Palloc) × (vs' : List ℕ) × (add_pages fuel from to s ≡ ok s') × IsPalloc s' vs'

add_pages-IsPalloc :
    (fuel from to : ℕ) (s : Palloc) (vs : List ℕ)
    → to - from < fuel
    → IsPalloc s vs
    → Added fuel from to s
unfolding add_pages ptranslate
add_pages-IsPalloc zero from to s vs enough i = absurd (omega arith)
add_pages-IsPalloc (suc fuel) from to s vs enough i = elim (Bool-cases (ltb from to)) [
  | inr done ↦ (s, vs, rw (done, add_pages) refl, i)
  | inl more ↦ elim (Bool-cases (is_mappable s from)) [
    | inr outside ↦
        rw (more, outside, add_pages)
          (add_pages-IsPalloc fuel (from + page_size) to s vs (omega (arith, ltb→lt from to more))
            i)
    | inl inside ↦ elim (Bool-cases ((s.page (ptranslate s from)).magic == palloc_page_magic)) [
      | inl known ↦
          rw (more, inside, known, add_pages)
            (add_pages-IsPalloc fuel (from + page_size) to s vs (omega (arith, ltb→lt from to more))
              i)
      | inr fresh ↦
          let (lo, hi) = mappable-bounds s from inside in
          rw (more, inside, fresh, pfree_lem s from i.tables lo hi, add_pages)
            (add_pages-IsPalloc fuel (from + page_size) to (put_back (s.vbase + (from - s.pbase)) s)
              ((s.vbase + (from - s.pbase)) ∷ vs) (omega (arith, ltb→lt from to more))
              (put_back-IsPalloc s (s.vbase + (from - s.pbase)) vs i (omega arith, omega arith)
                (λ h. ==→ne (s.page (ptranslate s from)).magic palloc_page_magic fresh (
                  subst (λ v. (s.page v).magic ≡ palloc_page_magic)
                    (sym (ptranslate_lem s from inside))
                    (FreeFrom-magic s.vbase s.size s.page null s.first_free_page _ vs i.free h)))))
    ]
  ]
]

-- On a well-formed allocator, before the system is initialised and with both addresses at page
-- boundaries, `palloc_add_free_region` returns, and leaves a well-formed allocator: whatever pages
-- have been added before, none is put twice in the list.
pub palloc_add_free_region-IsPalloc :
    (from to : ℕ) (s : Palloc) (vs : List ℕ)
    → IsPalloc s vs
    → s.yaos2_initialized ≡ false
    → from % page_size ≡ 0
    → to % page_size ≡ 0
    → (s' : Palloc) × (vs' : List ℕ) × (palloc_add_free_region from to s ≡ ok s') × IsPalloc s' vs'
unfolding palloc_add_free_region
palloc_add_free_region-IsPalloc from to s vs i early af at =
    let r = add_pages-IsPalloc (suc (to - from)) from to s vs (omega arith) i in
    (
      r.0,
      r.1,
      rw
          (
            ap (λ b. kassert (not b)) early,
            eq→== (from % page_size) 0 af,
            eq→== (to % page_size) 0 at,
          )
          r.2,
      r.3,
    )
