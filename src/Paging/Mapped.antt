-- ===== src/Paging/Mapped.antt =====
-- The two entries that `paging_map` writes map one page and no other.
use yetanotheros.Common.{
  ℕ, ◌+◌, ◌*◌, ◌^◌, ◌<◌, ◌≡◌, ◌≢◌, ◌⊎◌, inl, inr, refl, sym, ap, ◌∙◌, subst, true, false, List,
  ◌==◌, if◌then◌else◌, arith, Bool-cases, ==→ne, ==→eq, ne→==,
}
use yetanotheros.Common.Outcome.{ok, bind_ok}
use yetanotheros.Paging.Words.{load32, store32, store32-AreBytes}
use yetanotheros.Paging.Tables.{
  Machine, is_global, pte_get_paddr, pte_construct, mask_to_page, get_pd_index, get_pt_index,
  translate_or_panic, write_entries,
}
use yetanotheros.Paging.Space.{
  table, walk, IsSpace, IsSpace-memory, translate-static, get_pd_index-lt,
}
use yetanotheros.Paging.Map.{
  with_present, entry_with, written, entry-table, table-written, global-written, written_self,
  written_ne,
}

-- The state once both entries are written
abbrev pub entered : ℕ → ℕ → ℕ → ℕ → Machine → Machine
entered pd v p flags s = record s {
  memory =
      written pd (get_pd_index (mask_to_page v)) (get_pt_index (mask_to_page v)) p flags s.memory;
}

module _ (pd v p flags : ℕ) (free : List ℕ) (s : Machine) (h : IsSpace pd s free)
    (address : v < 2 ^ 32) (word : p < 2 ^ 32) (low : flags < 4096)
    (there : table s.memory pd (get_pd_index (mask_to_page v)) ≢ 0) where
  own : table s.memory pd (get_pd_index (mask_to_page v)) ≢ pd
  own = h.not_directory (get_pd_index (mask_to_page v)) (get_pd_index-lt v address) there

  tables_stay :
      (k : ℕ) → k < 1024 → table (entered pd v p flags s).memory pd k ≡ table s.memory pd k
  tables_stay =
      table-written s.memory pd (get_pd_index (mask_to_page v)) (get_pt_index (mask_to_page v)) p
        flags h.bytes (get_pd_index-lt v address) (omega arith) h.aligned word low own

  pub entered-IsSpace : IsSpace pd (entered pd v p flags s) free
  entered-IsSpace =
      IsSpace-memory pd s free (entered pd v p flags s).memory h
        (store32-AreBytes _ _ _ (store32-AreBytes _ _ _ h.bytes)) tables_stay

  pub write_entries-entered :
      write_entries
        (pd + 4 * get_pd_index (mask_to_page v))
        (get_pt_index (mask_to_page v))
        p
        flags
        s
      ≡ ok (entered pd v p flags s)
  unfolding write_entries
  write_entries-entered =
      let i : ℕ = get_pd_index (mask_to_page v) in
      let same : pte_get_paddr (entry_with pd i flags s.memory) ≡ table s.memory pd i =
        ap (λ x. x * 4096)
          (entry-table s.memory pd i (get_pt_index (mask_to_page v)) p flags h.bytes
            (get_pd_index-lt v address) (omega arith) h.aligned word low own) in
      let s1 : Machine = record s {
        memory = store32 s.memory (pd + 4 * i) (entry_with pd i flags s.memory);
      } in
      bind_ok _ (
        ap (λ t. translate_or_panic t s1) same
        ∙ translate-static s1 (table s.memory pd i) h.pages.tables
            (h.table_static i (get_pd_index-lt v address) there))

  pub global-entered :
      is_global flags ≡ false
      → (k : ℕ) → k < 1024
      → is_global (load32 s.memory (pd + 4 * k)) ≡ false
      → is_global (load32 (entered pd v p flags s).memory (pd + 4 * k)) ≡ false
  global-entered =
      global-written s.memory pd (get_pd_index (mask_to_page v)) (get_pt_index (mask_to_page v)) p
        flags h.bytes (get_pd_index-lt v address) (omega arith) h.aligned word low own

  -- The entry of every address afterwards
  pub walk-entered :
      (a : ℕ)
      → a < 2 ^ 32
      → walk (entered pd v p flags s).memory pd a ≡ (
          if mask_to_page a == mask_to_page v
          then pte_construct p (with_present flags)
          else walk s.memory pd a)
  walk-entered a lt =
      rw (tables_stay (get_pd_index (mask_to_page a)) (get_pd_index-lt a lt))
        (elim (Bool-cases (mask_to_page a == mask_to_page v)) [
          | inl same ↦ rw same (
              at_page (get_pd_index (mask_to_page a)) (get_pt_index (mask_to_page a))
                (ap get_pd_index (==→eq _ _ same)) (ap get_pt_index (==→eq _ _ same)))
          | inr other ↦ rw other (
              elsewhere (Bool-cases (table s.memory pd (get_pd_index (mask_to_page a)) == 0))
                (==→ne _ _ other))
        ])
    where
      at_page :
          (d n : ℕ)
          → d ≡ get_pd_index (mask_to_page v)
          → n ≡ get_pt_index (mask_to_page v)
          → (if table s.memory pd d == 0
              then 0
              else load32 (entered pd v p flags s).memory (table s.memory pd d + 4 * n))
            ≡ pte_construct p (with_present flags)
      at_page d n e f =
          subst
            (λ x.
              (if table s.memory pd x == 0
                then 0
                else load32 (entered pd v p flags s).memory (table s.memory pd x + 4 * n))
              ≡ pte_construct p (with_present flags))
            (sym e)
            (rw (ne→== (table s.memory pd (get_pd_index (mask_to_page v))) 0 there) (
              ap
                (λ x.
                  load32 (entered pd v p flags s).memory
                    (table s.memory pd (get_pd_index (mask_to_page v)) + 4 * x))
                f
              ∙ written_self s.memory pd (get_pd_index (mask_to_page v))
                  (get_pt_index (mask_to_page v)) p flags h.bytes (get_pd_index-lt v address)
                  (omega arith) h.aligned word low own))

      parts :
          mask_to_page a ≢ mask_to_page v
          → (get_pd_index (mask_to_page a) ≢ get_pd_index (mask_to_page v))
            ⊎ (get_pt_index (mask_to_page a) ≢ get_pt_index (mask_to_page v))
      parts ne = ground arith

      other_word :
          table s.memory pd (get_pd_index (mask_to_page a)) ≢ 0
          → (get_pd_index (mask_to_page a) ≢ get_pd_index (mask_to_page v))
            ⊎ (get_pt_index (mask_to_page a) ≢ get_pt_index (mask_to_page v))
          → (table s.memory pd (get_pd_index (mask_to_page a))
              ≢ table s.memory pd (get_pd_index (mask_to_page v)))
            ⊎ (get_pt_index (mask_to_page a) ≢ get_pt_index (mask_to_page v))
      other_word used (inl d) =
          inl (λ e. d (h.distinct _ _ (get_pd_index-lt a lt) (get_pd_index-lt v address) used e))
      other_word used (inr n) = inr n

      elsewhere :
          ((table s.memory pd (get_pd_index (mask_to_page a)) == 0) ≡ true)
            ⊎ ((table s.memory pd (get_pd_index (mask_to_page a)) == 0) ≡ false)
          → mask_to_page a ≢ mask_to_page v
          → (if table s.memory pd (get_pd_index (mask_to_page a)) == 0
              then 0
              else load32 (entered pd v p flags s).memory (
                  table s.memory pd (get_pd_index (mask_to_page a))
                  + 4 * get_pt_index (mask_to_page a)))
            ≡ walk s.memory pd a
      elsewhere (inl none_there) ne = rw none_there refl
      elsewhere (inr used) ne = rw used (
          written_ne s.memory pd (get_pd_index (mask_to_page v)) (get_pt_index (mask_to_page v)) p
            flags h.bytes (get_pd_index-lt v address) (omega arith) h.aligned word low own
            (table s.memory pd (get_pd_index (mask_to_page a))) (get_pt_index (mask_to_page a))
            (omega arith) (omega arith) (h.not_directory _ (get_pd_index-lt a lt) (==→ne _ 0 used))
            (other_word (==→ne _ 0 used) (parts ne)))
