-- ===== src/Palloc/FreeList.antt =====
-- The free pages as a list: what `palloc` and `pfree` do to it.
use yetanotheros.Common.{
  ℕ, ◌+◌, ◌-◌, ◌%◌, ◌^◌, ◌≡◌, ◌≢◌, ◌<◌, ◌≤◌, refl, sym, subst, ap, ◌∙◌, true, List, [], ◌∷◌, ◌==◌,
  if◌then◌else◌, Has, length, arith, inl, inr, eq→==, ne→==, lt→ltb, le→leb, Bool-cases,
}
use yetanotheros.Common.Outcome.{ok, ◌>>=◌, kassert}
use yetanotheros.Common.Store.{write, write_self, write_ne}
use yetanotheros.Palloc.Pages.{
  null, phys_null, palloc_page_magic, Page, Palloc, vtranslate, ptranslate, palloc, pfree,
}

-- A page's virtual address in the region.
abbrev pub InRegion : ℕ → ℕ → ℕ → Type 0
InRegion vbase size v = (vbase ≤ v) × (v < vbase + size)

-- From `head` the links lead through exactly these pages, each in the region, marked with the
-- magic number, linked back to the one before it, and met once.
abbrev pub FreeFrom : ℕ → ℕ → (ℕ → Page) → ℕ → ℕ → List ℕ → Type 0
FreeFrom vbase size m prev head [] = head ≡ null
FreeFrom vbase size m prev head (v ∷ vs) =
    (head ≡ v)
    × InRegion vbase size v
    × ((m v).magic ≡ palloc_page_magic)
    × ((m v).prev ≡ prev)
    × (¬ Has v vs)
    × FreeFrom vbase size m v (m v).next vs

pub record IsPalloc (s : Palloc) (vs : List ℕ) : Type 0 where
  pub tables : s.kernel_page_tables ≡ true
  pub above_null : 0 < s.vbase
  pub free : FreeFrom s.vbase s.size s.page null s.first_free_page vs
  pub counted : s.remaining_pages ≡ length vs % 2 ^ 32

abbrev pub set_prev : (ℕ → Page) → ℕ → ℕ → ℕ → Page
set_prev m head prev = if head == null then m else write m head (record (m head) { prev = prev })

module _ (vbase size : ℕ) (m : ℕ → Page) where
  FreeFrom-write :
      (q : ℕ) (x : Page) (prev head : ℕ) (vs : List ℕ)
      → ¬ Has q vs
      → FreeFrom vbase size m prev head vs
      → FreeFrom vbase size (write m q x) prev head vs
  FreeFrom-write q x prev head [] out c = c
  FreeFrom-write q x prev head (v ∷ vs) out c =
      let same = sym (write_ne m q x v (λ e. out (inl (sym e)))) in
      (
        c.0,
        c.1,
        subst (λ pg. pg.magic ≡ palloc_page_magic) same c.2,
        subst (λ pg. pg.prev ≡ prev) same c.3,
        c.4,
        subst (λ pg. FreeFrom vbase size (write m q x) v pg.next vs) same
            (FreeFrom-write q x v (m v).next vs (λ h. out (inr h)) c.5),
      )

  -- The first page is linked back to another page.
  FreeFrom-prev :
      (prev prev' head : ℕ) (vs : List ℕ)
      → 0 < vbase
      → FreeFrom vbase size m prev head vs
      → FreeFrom vbase size (set_prev m head prev') prev' head vs
  FreeFrom-prev prev prev' head [] pos c = c
  FreeFrom-prev prev prev' head (v ∷ vs) pos c =
      let relinked = write m v (record (m v) { prev = prev' }) in
      let self = sym (write_self m v (record (m v) { prev = prev' })) in
      let is : set_prev m v prev' ≡ relinked = rw (ne→== v null (omega arith)) refl in
      let links : FreeFrom vbase size relinked prev' v (v ∷ vs) = (
        refl,
        c.1,
        subst (λ pg. pg.magic ≡ palloc_page_magic) self c.2,
        subst (λ pg. pg.prev ≡ prev') self refl,
        c.4,
        subst (λ pg. FreeFrom vbase size relinked v pg.next vs) self
            (FreeFrom-write v (record (m v) { prev = prev' }) v (m v).next vs c.4 c.5),
      ) in
      subst (λ n. FreeFrom vbase size (set_prev m n prev') prev' n (v ∷ vs)) (sym c.0)
        (subst (λ mm. FreeFrom vbase size mm prev' v (v ∷ vs)) (sym is) links)

abbrev pub cleared : Page
cleared = record { magic = 0; prev = 0; next = 0 }

-- The state after `palloc` has taken this page.
abbrev pub taken : ℕ → Palloc → Palloc
taken v s = record s {
  first_free_page = (s.page v).next;
  remaining_pages = (s.remaining_pages + 2 ^ 32 - 1) % 2 ^ 32;
  page = write (set_prev s.page (s.page v).next null) v cleared;
}

pub taken-IsPalloc :
    (s : Palloc) (v : ℕ) (vs : List ℕ) → IsPalloc s (v ∷ vs) → IsPalloc (taken v s) vs
taken-IsPalloc s v vs i =
    let next = (s.page v).next in
    record {
      tables = i.tables;
      above_null = i.above_null;
      free =
          FreeFrom-write s.vbase s.size (set_prev s.page next null) v cleared null next vs i.free.4
            (FreeFrom-prev s.vbase s.size s.page v null next vs i.above_null i.free.5);
      counted = omega (arith, i.counted);
    }

pub palloc-taken :
    (s : Palloc) (v : ℕ) (vs : List ℕ)
    → IsPalloc s (v ∷ vs)
    → palloc s ≡ ok (taken v s, s.pbase + (v - s.vbase))
unfolding palloc vtranslate
palloc-taken s v vs i =
    let first = s.first_free_page in
    let here : InRegion s.vbase s.size first =
      subst (InRegion s.vbase s.size) (sym i.free.0) i.free.1 in
    let mark : (s.page first).magic ≡ palloc_page_magic =
      subst (λ x. (s.page x).magic ≡ palloc_page_magic) (sym i.free.0) i.free.2 in
    subst (λ x. palloc s ≡ ok (taken x s, s.pbase + (x - s.vbase))) i.free.0
      (rw
        (
          ap kassert i.tables,
          ne→== first null (omega (arith, i.above_null)),
          eq→== (s.page first).magic palloc_page_magic mark,
          le→leb s.vbase first here.0,
          lt→ltb first (s.vbase + s.size) here.1,
        )
        refl)

-- On a well-formed allocator with a free page, `palloc` returns the physical address of the first
-- one, and the free pages are then the others.
pub palloc-first :
    (s : Palloc) (v : ℕ) (vs : List ℕ)
    → IsPalloc s (v ∷ vs)
    → (s' : Palloc) × (palloc s ≡ ok (s', s.pbase + (v - s.vbase))) × IsPalloc s' vs
palloc-first s v vs i = (taken v s, palloc-taken s v vs i, taken-IsPalloc s v vs i)

pub palloc-none : (s : Palloc) → IsPalloc s [] → palloc s ≡ ok (s, phys_null)
unfolding palloc
palloc-none s i = rw (ap kassert i.tables, eq→== s.first_free_page null i.free) refl

-- The state after `pfree` has put this page first.
abbrev pub put_back : ℕ → Palloc → Palloc
put_back v s = record s {
  first_free_page = v;
  remaining_pages = (s.remaining_pages + 1) % 2 ^ 32;
  page =
      set_prev
        (write s.page v
          (record { magic = palloc_page_magic; prev = null; next = s.first_free_page }))
        s.first_free_page v;
}

set_prev_ne : (m : ℕ → Page) (head prev v : ℕ) → v ≢ head → set_prev m head prev v ≡ m v
set_prev_ne m head prev v ne = elim (Bool-cases (head == null)) [
  | inl y ↦ rw y refl
  | inr n ↦ rw n (write_ne m head (record (m head) { prev = prev }) v ne)
]

FreeFrom-head :
    (vbase size : ℕ) (m : ℕ → Page) (prev head v : ℕ) (vs : List ℕ)
    → FreeFrom vbase size m prev head vs
    → 0 < v
    → ¬ Has v vs
    → v ≢ head
FreeFrom-head vbase size m prev head v [] c pos out = omega (arith, c)
FreeFrom-head vbase size m prev head v (w ∷ ws) c pos out = λ e. out (inl (e ∙ c.0))

pub put_back-IsPalloc :
    (s : Palloc) (v : ℕ) (vs : List ℕ)
    → IsPalloc s vs
    → InRegion s.vbase s.size v
    → ¬ Has v vs
    → IsPalloc (put_back v s) (v ∷ vs)
put_back-IsPalloc s v vs i here out =
    let x : Page = record { magic = palloc_page_magic; prev = null; next = s.first_free_page } in
    let filled = write s.page v x in
    let pos : 0 < v = omega (arith, i.above_null, here.0) in
    let self : x ≡ set_prev filled s.first_free_page v v = sym (
      set_prev_ne filled s.first_free_page v v
        (FreeFrom-head s.vbase s.size s.page null s.first_free_page v vs i.free pos out)
      ∙ write_self s.page v x) in
    record {
      tables = i.tables;
      above_null = i.above_null;
      counted = omega (arith, i.counted);
      free = (
        refl,
        here,
        subst (λ pg. pg.magic ≡ palloc_page_magic) self refl,
        subst (λ pg. pg.prev ≡ null) self refl,
        out,
        subst (λ pg. FreeFrom s.vbase s.size (set_prev filled s.first_free_page v) v pg.next vs)
            self
            (FreeFrom-prev s.vbase s.size filled null v s.first_free_page vs i.above_null
              (FreeFrom-write s.vbase s.size s.page v x null s.first_free_page vs out i.free)),
      );
    }

pub pfree_lem :
    (s : Palloc) (p : ℕ)
    → s.kernel_page_tables ≡ true
    → s.pbase ≤ p
    → p < s.pbase + s.size
    → pfree p s ≡ ok (put_back (s.vbase + (p - s.pbase)) s)
unfolding pfree ptranslate
pfree_lem s p tables lo hi =
    rw (le→leb s.pbase p lo, lt→ltb p (s.pbase + s.size) hi, ap kassert tables) refl

-- On a well-formed allocator with a page of the region that is not free, `pfree` followed by
-- `palloc` returns the same page, and the free pages are those from before.
pub pfree-palloc :
    (s : Palloc) (p : ℕ) (vs : List ℕ)
    → IsPalloc s vs
    → s.pbase ≤ p
    → p < s.pbase + s.size
    → ¬ Has (s.vbase + (p - s.pbase)) vs
    → (s' : Palloc) × ((pfree p s >>= palloc) ≡ ok (s', p)) × IsPalloc s' vs
pfree-palloc s p vs i lo hi out =
    let v = s.vbase + (p - s.pbase) in
    let back : IsPalloc (put_back v s) (v ∷ vs) =
      put_back-IsPalloc s v vs i (omega arith, omega arith) out in
    let t = palloc-first (put_back v s) v vs back in
    (t.0, rw (pfree_lem s p i.tables lo hi) (t.1 ∙ ap (λ q. ok (t.0, q)) (omega arith)), t.2)
