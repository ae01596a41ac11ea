-- ===== src/Paging/Ensure.antt =====
-- A table of its own for an entry of the directory.
use yetanotheros.Common.{
  ℕ, ◌+◌, ◌-◌, ◌*◌, ◌%◌, ◌^◌, ◌<◌, ◌≤◌, ◌≡◌, ◌≢◌, ◌⊎◌, inl, inr, refl, sym, ap, ◌∙◌, subst, false,
  List, ◌∷◌, ◌==◌, if◌then◌else◌, arith, Bool-cases, ==→ne, ==→eq, ne→==, eq→==, le→leb, lt→ltb,
}
use yetanotheros.Common.Outcome.{ok, bind_ok}
use yetanotheros.Libc.Memory.{Bytes}
use yetanotheros.Palloc.Pages.{null, ptranslate}
use yetanotheros.Palloc.FreeList.{IsPalloc, InRegion, taken, palloc-taken}
use yetanotheros.Paging.Words.{
  load32, store32, kmemset, load32-store32, load32-store32_ne, load32-kmemset, load32-kmemset_ne,
  AreBytes, store32-AreBytes, kmemset-AreBytes,
}
use yetanotheros.Paging.Tables.{
  Machine, pte_get_paddr, pte_construct, mask_to_page, get_pd_index, get_pt_index, is_global,
  take_page, clear_table, ensure_table,
}
use yetanotheros.Paging.Space.{
  table, walk, frame, IsSpace, get_pd_index-lt, word-beside, word-beside-word,
}

-- Memory with a cleared table at `f`, and entry `i` of the directory pointing at it
abbrev pub with_table : ℕ → ℕ → ℕ → Bytes → Bytes
with_table pd i f m =
    store32 (kmemset f 0 4096 (kmemset f 0 4096 m)) (pd + 4 * i) (pte_construct f 0)

pub with_table-AreBytes : (m : Bytes) (pd i f : ℕ) → AreBytes m → AreBytes (with_table pd i f m)
with_table-AreBytes m pd i f h =
    store32-AreBytes (kmemset f 0 4096 (kmemset f 0 4096 m)) (pd + 4 * i) (pte_construct f 0)
      (kmemset-AreBytes f 4096 (kmemset f 0 4096 m) (kmemset-AreBytes f 4096 m h))

abbrev pub filled : ℕ → ℕ → ℕ → Machine → Machine
filled pd i v s = record s {
  pages = taken v s.pages;
  memory = with_table pd i (frame s v) s.memory;
}

pub take_page-taken :
    (s : Machine) (v : ℕ) (vs : List ℕ)
    → IsPalloc s.pages (v ∷ vs)
    → 0 < frame s v
    → take_page s
      ≡ ok (
        record s { pages = taken v s.pages; memory = kmemset (frame s v) 0 4096 s.memory },
        frame s v,
      )
unfolding take_page
take_page-taken s v vs i positive =
    bind_ok _ (palloc-taken s.pages v vs i) ∙ rw (ne→== (frame s v) 0 (omega arith)) refl

clear_table-kmemset :
    (s : Machine) (v : ℕ)
    → InRegion s.pages.vbase s.pages.size v
    → 0 < s.pages.vbase
    → clear_table (frame s v) s ≡ ok (record s { memory = kmemset (frame s v) 0 4096 s.memory })
unfolding clear_table ptranslate
clear_table-kmemset s v (low, high) positive =
    rw
      (
        le→leb s.pages.pbase (frame s v) (omega arith),
        lt→ltb (frame s v) (s.pages.pbase + s.pages.size) (omega arith),
        ne→== (s.pages.vbase + (frame s v - s.pages.pbase)) null (omega arith),
      )
      refl

pub ensure_table-filled :
    (pd i v : ℕ) (vs : List ℕ) (s : Machine)
    → IsSpace pd s (v ∷ vs)
    → table s.memory pd i ≡ 0
    → ensure_table (pd + 4 * i) s ≡ ok (filled pd i v s)
unfolding ensure_table
ensure_table-filled pd i v vs s h empty =
    rw
      (
        eq→== (table s.memory pd i) 0 empty,
        take_page-taken s v vs h.pages (h.spare v (inl refl)).positive,
        clear_table-kmemset
            (record s { pages = taken v s.pages; memory = kmemset (frame s v) 0 4096 s.memory }) v
            h.pages.free.1 h.pages.above_null,
      )
      refl

module _ (m : Bytes) (pd i f : ℕ) (small : i < 1024) (directory : pd % 4096 ≡ 0)
    (page : f % 4096 ≡ 0) (word : f < 2 ^ 32) (other : f ≢ pd) where
  load32-with_table :
      (a : ℕ)
      → (a + 4 ≤ f) ⊎ (f + 4096 ≤ a)
      → (a + 4 ≤ pd + 4 * i) ⊎ (pd + 4 * i + 4 ≤ a)
      → load32 (with_table pd i f m) a ≡ load32 m a
  load32-with_table a page_out entry_out =
      load32-store32_ne (kmemset f 0 4096 (kmemset f 0 4096 m)) (pd + 4 * i) (pte_construct f 0) a
        entry_out
      ∙ load32-kmemset_ne f 0 4096 (kmemset f 0 4096 m) a page_out
      ∙ load32-kmemset_ne f 0 4096 m a page_out

  pub table-with_table_self : table (with_table pd i f m) pd i ≡ f
  table-with_table_self =
      ap pte_get_paddr (
        load32-store32 (kmemset f 0 4096 (kmemset f 0 4096 m)) (pd + 4 * i) (pte_construct f 0)
          (omega arith))
      ∙ whole f page
    where
      whole : (x : ℕ) → x % 4096 ≡ 0 → pte_get_paddr (pte_construct x 0) ≡ x
      whole x h = omega arith

  pub table-with_table_ne :
      (k : ℕ) → k < 1024 → k ≢ i → table (with_table pd i f m) pd k ≡ table m pd k
  table-with_table_ne k lt ne = ap pte_get_paddr (
      load32-with_table (pd + 4 * k) (word-beside pd k f directory lt page (λ e. other (sym e)))
        (ground arith))

  -- No entry of the directory becomes global.
  pub global-with_table :
      (k : ℕ)
      → k < 1024
      → is_global (load32 m (pd + 4 * k)) ≡ false
      → is_global (load32 (with_table pd i f m) (pd + 4 * k)) ≡ false
  global-with_table k lt was = elim (Bool-cases (k == i)) [
    | inl e ↦
        subst (λ x. is_global (load32 (with_table pd i f m) (pd + 4 * x)) ≡ false)
          (sym (==→eq k i e))
          (ap is_global (
              load32-store32 (kmemset f 0 4096 (kmemset f 0 4096 m)) (pd + 4 * i)
                (pte_construct f 0) (omega arith))
            ∙ local f page)
    | inr n ↦
        ap is_global (
          load32-with_table (pd + 4 * k) (word-beside pd k f directory lt page (λ e. other (sym e)))
            (beside_entry k (==→ne k i n)))
        ∙ was
  ]
    where
      local : (x : ℕ) → x % 4096 ≡ 0 → is_global (pte_construct x 0) ≡ false
      local x h = ground arith

      beside_entry : (k : ℕ) → k ≢ i → (pd + 4 * k + 4 ≤ pd + 4 * i) ⊎ (pd + 4 * i + 4 ≤ pd + 4 * k)
      beside_entry k ne = ground arith

  -- A new table has no entries.
  pub walk-with_table :
      table m pd i ≡ 0
      → ((k : ℕ) → k < 1024 → table m pd k ≢ f)
      → ((k : ℕ) → k < 1024 → table m pd k ≢ 0 → table m pd k ≢ pd)
      → (v : ℕ) → v < 2 ^ 32
      → walk (with_table pd i f m) pd v ≡ walk m pd v
  walk-with_table empty unused apart v vlt =
      elim (Bool-cases (get_pd_index (mask_to_page v) == i)) [
        | inl e ↦ at_new (get_pd_index (mask_to_page v)) (==→eq _ i e)
        | inr n ↦ at_old (get_pd_index (mask_to_page v)) (get_pd_index-lt v vlt) (==→ne _ i n)
      ]
    where
      entry_of : Bytes → ℕ → ℕ
      entry_of k d =
          if table k pd d == 0
          then 0
          else load32 k (table k pd d + 4 * get_pt_index (mask_to_page v))

      blank : load32 (with_table pd i f m) (f + 4 * get_pt_index (mask_to_page v)) ≡ 0
      blank =
          load32-store32_ne (kmemset f 0 4096 (kmemset f 0 4096 m)) (pd + 4 * i) (pte_construct f 0)
            (f + 4 * get_pt_index (mask_to_page v)) (ground arith)
          ∙ load32-kmemset f 4096 (kmemset f 0 4096 m) (f + 4 * get_pt_index (mask_to_page v))
              (omega arith) (omega arith)

      at_new : (d : ℕ) → d ≡ i → entry_of (with_table pd i f m) d ≡ entry_of m d
      at_new d e =
          subst (λ x. entry_of (with_table pd i f m) x ≡ entry_of m x) (sym e)
            (new_zero (table (with_table pd i f m) pd i) table-with_table_self
              ∙ sym (old_zero (table m pd i) empty))
        where
          old_zero :
              (t : ℕ)
              → t ≡ 0
              → (if t == 0 then 0 else load32 m (t + 4 * get_pt_index (mask_to_page v))) ≡ 0
          old_zero t e = rw (eq→== t 0 e) refl

          new_zero :
              (t : ℕ)
              → t ≡ f
              → (if t == 0
                  then 0
                  else load32 (with_table pd i f m) (t + 4 * get_pt_index (mask_to_page v)))
                ≡ 0
          new_zero t e =
              subst
                (λ x.
                  (if x == 0
                    then 0
                    else load32 (with_table pd i f m) (x + 4 * get_pt_index (mask_to_page v)))
                  ≡ 0)
                (sym e) (elim (Bool-cases (f == 0)) [ inl y ↦ rw y refl | inr n ↦ rw n blank ])

      at_old : (d : ℕ) → d < 1024 → d ≢ i → entry_of (with_table pd i f m) d ≡ entry_of m d
      at_old d lt ne = elim (Bool-cases (table m pd d == 0)) [
        | inl y ↦ rw (table-with_table_ne d lt ne, y) refl
        | inr n ↦
            rw (table-with_table_ne d lt ne, n)
              (load32-with_table (table m pd d + 4 * get_pt_index (mask_to_page v))
                (word-beside (table m pd d) (get_pt_index (mask_to_page v)) f (omega arith)
                  (omega arith) page (unused d lt))
                (word-beside-word pd i (table m pd d) (get_pt_index (mask_to_page v)) directory
                  small (omega arith) (omega arith) (apart d lt (==→ne _ 0 n))))
      ]
