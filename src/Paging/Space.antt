-- ===== src/Paging/Space.antt =====
-- Well-formed address spaces: a directory whose tables are pages of their own.
use yetanotheros.Common.{
  ℕ, ◌+◌, ◌-◌, ◌*◌, ◌%◌, ◌^◌, ◌<◌, ◌≤◌, ◌⊎◌, ◌≡◌, ◌≢◌, inl, inr, refl, sym, ap, ◌∙◌, subst, true,
  false, List, [], ◌∷◌, ◌==◌, if◌then◌else◌, Has, arith, Bool-cases, ==→ne,
}
use yetanotheros.Common.Outcome.{ok, kassert, bind_ok}
use yetanotheros.Libc.Memory.{Bytes}
use yetanotheros.Palloc.Pages.{Page}
use yetanotheros.Palloc.FreeList.{IsPalloc, FreeFrom, InRegion, taken, taken-IsPalloc}
use yetanotheros.Paging.Words.{load32, AreBytes}
use yetanotheros.Paging.Tables.{
  Machine, pte_get_paddr, mask_to_page, get_pd_index, get_pt_index, translate_or_panic,
  paging_get_entry, paging_get,
}
use yetanotheros.Vm.Layout.{vm_is_static_p}

-- The table that entry `i` of a directory points at; 0 if there is none
abbrev pub table : Bytes → ℕ → ℕ → ℕ
table m pd i = pte_get_paddr (load32 m (pd + 4 * i))

-- The entry of a virtual address; 0 if it has no table
abbrev pub walk : Bytes → ℕ → ℕ → ℕ
walk m pd v =
    if table m pd (get_pd_index (mask_to_page v)) == 0
    then 0
    else load32 m (table m pd (get_pd_index (mask_to_page v)) + 4 * get_pt_index (mask_to_page v))

-- The physical address of a page of the allocator's region
abbrev pub frame : Machine → ℕ → ℕ
frame s v = s.pages.pbase + (v - s.pages.vbase)

-- A page that the tables do not use
pub record IsSpare (pd : ℕ) (s : Machine) (f : ℕ) : Type 0 where
  pub aligned : f % 4096 ≡ 0
  pub positive : 0 < f
  pub word : f < 2 ^ 32
  pub static : vm_is_static_p s.vm_map f ≡ true
  pub not_directory : f ≢ pd
  pub not_table : (i : ℕ) → i < 1024 → table s.memory pd i ≢ f

-- The directory and its tables are static pages, all of them different and none of them free.
pub record IsSpace (pd : ℕ) (s : Machine) (free : List ℕ) : Type 0 where
  pub unlocked : s.palloc_lock_held ≡ false
  pub pages : IsPalloc s.pages free
  pub bytes : AreBytes s.memory
  pub aligned : pd % 4096 ≡ 0
  pub static : vm_is_static_p s.vm_map pd ≡ true
  pub table_static :
      (i : ℕ)
      → i < 1024
      → table s.memory pd i ≢ 0
      → vm_is_static_p s.vm_map (table s.memory pd i) ≡ true
  pub not_directory : (i : ℕ) → i < 1024 → table s.memory pd i ≢ 0 → table s.memory pd i ≢ pd
  pub distinct :
      (i j : ℕ)
      → i < 1024
      → j < 1024
      → table s.memory pd i ≢ 0
      → table s.memory pd i ≡ table s.memory pd j
      → i ≡ j
  pub spare : (v : ℕ) → Has v free → IsSpare pd s (frame s v)

pub translate-static :
    (s : Machine) (p : ℕ)
    → s.pages.kernel_page_tables ≡ true
    → vm_is_static_p s.vm_map p ≡ true
    → translate_or_panic p s ≡ ok p
unfolding translate_or_panic
translate-static s p tables static = rw (ap kassert tables, static) refl

pub get_pd_index-lt : (v : ℕ) → v < 2 ^ 32 → get_pd_index (mask_to_page v) < 1024
get_pd_index-lt v h = omega arith

-- On a well-formed space, `paging_get_entry` finds the entry.
pub paging_get_entry-walk :
    (pd v : ℕ) (s : Machine) (free : List ℕ)
    → IsSpace pd s free
    → v < 2 ^ 32
    → paging_get_entry pd v s ≡ ok (walk s.memory pd v)
unfolding paging_get_entry
paging_get_entry-walk pd v s free i small =
    let pdi : ℕ = get_pd_index (mask_to_page v) in
    let tables : s.pages.kernel_page_tables ≡ true = i.pages.tables in
    let base = translate-static s pd tables i.static in
    elim (Bool-cases (table s.memory pd pdi == 0)) [
      | inl none_there ↦ rw (ap kassert tables, base, none_there) refl
      | inr there ↦
          rw
            (
              ap kassert tables,
              base,
              there,
              translate-static s (table s.memory pd pdi) tables
                  (i.table_static pdi (get_pd_index-lt v small) (==→ne _ 0 there)),
            )
            refl
    ]

pub paging_get-walk :
    (pd v : ℕ) (s : Machine) (free : List ℕ)
    → IsSpace pd s free
    → v < 2 ^ 32
    → paging_get pd v s ≡ ok (pte_get_paddr (walk s.memory pd v))
unfolding paging_get
paging_get-walk pd v s free i small =
    bind_ok (λ e. ok (pte_get_paddr e)) (paging_get_entry-walk pd v s free i small)

-- A word of one page stands beside another page.
pub word-beside :
    (t n f : ℕ)
    → t % 4096 ≡ 0
    → n < 1024
    → f % 4096 ≡ 0
    → t ≢ f
    → (t + 4 * n + 4 ≤ f) ⊎ (f + 4096 ≤ t + 4 * n)
word-beside t n f ht lt hf ne = ground arith

-- Words of different pages stand beside each other.
pub word-beside-word :
    (pd k t n : ℕ)
    → pd % 4096 ≡ 0
    → k < 1024
    → t % 4096 ≡ 0
    → n < 1024
    → t ≢ pd
    → (t + 4 * n + 4 ≤ pd + 4 * k) ⊎ (pd + 4 * k + 4 ≤ t + 4 * n)
word-beside-word pd k t n hp lt ht lt' ne = ground arith

-- If only the page `f` changes, which is no table, every address keeps its entry.
pub walk-beside :
    (m m' : Bytes) (pd f a : ℕ)
    → ((i : ℕ) → i < 1024 → table m' pd i ≡ table m pd i)
    → ((t n : ℕ) → t % 4096 ≡ 0 → n < 1024 → t ≢ f → load32 m' (t + 4 * n) ≡ load32 m (t + 4 * n))
    → ((i : ℕ) → i < 1024 → table m pd i ≢ f)
    → a < 2 ^ 32
    → walk m' pd a ≡ walk m pd a
walk-beside m m' pd f a same stays unused lt =
    let i : ℕ = get_pd_index (mask_to_page a) in
    rw (same i (get_pd_index-lt a lt)) (
      ap (λ e. if table m pd i == 0 then 0 else e)
        (stays (table m pd i) (get_pt_index (mask_to_page a)) (omega arith) (omega arith)
          (unused i (get_pd_index-lt a lt))))

-- If the tables stay, so does the space.
pub IsSpace-memory :
    (pd : ℕ) (s : Machine) (free : List ℕ) (m : Bytes)
    → IsSpace pd s free
    → AreBytes m
    → ((i : ℕ) → i < 1024 → table m pd i ≡ table s.memory pd i)
    → IsSpace pd (record s { memory = m }) free
IsSpace-memory pd s free m i bytes same = record {
  bytes = bytes;
  unlocked = i.unlocked;
  pages = i.pages;
  aligned = i.aligned;
  static = i.static;
  table_static = λ k lt ne.
      subst (λ t. vm_is_static_p s.vm_map t ≡ true) (sym (same k lt))
        (i.table_static k lt (λ e. ne (same k lt ∙ e)));
  not_directory = λ k lt ne e. i.not_directory k lt (λ z. ne (same k lt ∙ z)) (sym (same k lt) ∙ e);
  distinct = λ k j lt lt' ne e.
      i.distinct k j lt lt' (λ z. ne (same k lt ∙ z)) (sym (same k lt) ∙ e ∙ same j lt');
  spare = λ v h.
      let f : IsSpare pd s (frame s v) = i.spare v h in
      record {
        aligned = f.aligned;
        positive = f.positive;
        word = f.word;
        static = f.static;
        not_directory = f.not_directory;
        not_table = λ k lt e. f.not_table k lt (sym (same k lt) ∙ e);
      };
}

-- A free page stands in the allocator's region.
pub free-InRegion :
    (vbase size prev head : ℕ) (page : ℕ → Page) (vs : List ℕ) (v : ℕ)
    → FreeFrom vbase size page prev head vs
    → Has v vs
    → InRegion vbase size v
free-InRegion vbase size prev head page [] v c h = absurd h
free-InRegion vbase size prev head page (w ∷ ws) v c (inl e) =
    subst (InRegion vbase size) (sym e) c.1
free-InRegion vbase size prev head page (w ∷ ws) v c (inr h) =
    free-InRegion vbase size w (page w).next page ws v c.5 h

-- Free pages are different frames.
pub frame_ne :
    (pd v : ℕ) (vs : List ℕ) (s : Machine)
    → IsSpace pd s (v ∷ vs)
    → (w : ℕ) → Has w vs
    → frame s v ≢ frame s w
frame_ne pd v vs s h w there e =
    let here : InRegion s.pages.vbase s.pages.size v = h.pages.free.1 in
    let inside : InRegion s.pages.vbase s.pages.size w =
      free-InRegion s.pages.vbase s.pages.size v (s.pages.page v).next s.pages.page vs w
        h.pages.free.5 there in
    h.pages.free.4 (subst (λ x. Has x vs) (omega arith) there)

-- The space without the first free page
pub IsSpace-taken :
    (pd v : ℕ) (vs : List ℕ) (s : Machine)
    → IsSpace pd s (v ∷ vs)
    → IsSpace pd (record s { pages = taken v s.pages }) vs
IsSpace-taken pd v vs s h = record {
  unlocked = h.unlocked;
  pages = taken-IsPalloc s.pages v vs h.pages;
  bytes = h.bytes;
  aligned = h.aligned;
  static = h.static;
  table_static = h.table_static;
  not_directory = h.not_directory;
  distinct = h.distinct;
  spare = λ w there.
      let g : IsSpare pd s (frame s w) = h.spare w (inr there) in
      record {
        aligned = g.aligned;
        positive = g.positive;
        word = g.word;
        static = g.static;
        not_directory = g.not_directory;
        not_table = g.not_table;
      };
}
