-- ===== src/Paging/MapLaws.antt =====
-- `paging_map` as a whole, and what `paging_get` then finds.
use yetanotheros.Common.{
  ℕ, ◌+◌, ◌*◌, ◌^◌, ◌<◌, ◌≡◌, ◌≢◌, ◌⊎◌, inl, inr, refl, sym, ap, ◌∙◌, Bool, true, false, List, [],
  ◌∷◌, ◌==◌, if◌then◌else◌, length, arith, Bool-cases, ==→ne, ==→eq,
}
use yetanotheros.Common.Outcome.{ok, panic, ◌>>=◌, kassert, bind_ok, ok-injective}
use yetanotheros.Paging.Words.{load32}
use yetanotheros.Paging.Tables.{
  Machine, is_global, pte_get_paddr, pte_construct, mask_to_page, get_pd_index, get_pt_index,
  ensure_table, write_entries, paging_map, paging_get,
}
use yetanotheros.Paging.Space.{
  table, walk, frame, IsSpare, IsSpace, translate-static, get_pd_index-lt, paging_get-walk,
}
use yetanotheros.Paging.Ensure.{filled, ensure_table-filled}
use yetanotheros.Paging.Fill.{filled-IsSpace, walk-filled, table-filled, global-filled}
use yetanotheros.Paging.Map.{with_present}
use yetanotheros.Paging.Mapped.{
  entered, entered-IsSpace, write_entries-entered, walk-entered, global-entered,
}

-- What is left of the free pages: all of them, or all but the first
pub data Takes : List ℕ → List ℕ → Type 0 where
  nothing : {free : List ℕ} → Takes free free
  one : {v : ℕ} {free : List ℕ} → Takes (v ∷ free) free

-- After mapping a page, the space is well-formed, and only the entry of that page has changed.
pub record Maps (pd v p flags : ℕ) (s : Machine) (free : List ℕ) (s' : Machine) : Type 0 where
  pub left : List ℕ
  pub takes : Takes free left
  pub space : IsSpace pd s' left
  pub entry :
      (a : ℕ)
      → a < 2 ^ 32
      → walk s'.memory pd a ≡ (
          if mask_to_page a == mask_to_page v
          then pte_construct p (with_present flags)
          else walk s.memory pd a)
  pub local :
      (k : ℕ)
      → k < 1024
      → is_global (load32 s.memory (pd + 4 * k)) ≡ false
      → is_global (load32 s'.memory (pd + 4 * k)) ≡ false
  pub frames : (w : ℕ) → frame s' w ≡ frame s w

module _ (pd v p flags : ℕ) (address : v < 2 ^ 32) (word : p < 2 ^ 32) (low : flags < 4096)
    (local : is_global flags ≡ false) where
  entered-Maps :
      (free : List ℕ) (s : Machine)
      → IsSpace pd s free
      → table s.memory pd (get_pd_index (mask_to_page v)) ≢ 0
      → Maps pd v p flags s free (entered pd v p flags s)
  entered-Maps free s h there = record {
    left = free;
    takes = nothing;
    space = entered-IsSpace pd v p flags free s h address word low there;
    entry = walk-entered pd v p flags free s h address word low there;
    local = global-entered pd v p flags free s h address word low there local;
    frames = λ w. refl;
  }

  filled-Maps :
      (w : ℕ) (free : List ℕ) (s : Machine)
      → IsSpace pd s (w ∷ free)
      → table s.memory pd (get_pd_index (mask_to_page v)) ≡ 0
      → table
          (filled pd (get_pd_index (mask_to_page v)) w s).memory
          pd
          (get_pd_index (mask_to_page v))
        ≢ 0
      → Maps pd v p flags s
          (w ∷ free)
          (entered pd v p flags (filled pd (get_pd_index (mask_to_page v)) w s))
  filled-Maps w free s h empty there =
      let i : ℕ = get_pd_index (mask_to_page v) in
      let small : i < 1024 = get_pd_index-lt v address in
      let f : IsSpace pd (filled pd i w s) free = filled-IsSpace pd i w free s h small empty in
      record {
        left = free;
        takes = one;
        space = entered-IsSpace pd v p flags free (filled pd i w s) f address word low there;
        entry = λ a lt.
            walk-entered pd v p flags free (filled pd i w s) f address word low there a lt
            ∙ ap
                (λ e.
                  if mask_to_page a == mask_to_page v
                  then pte_construct p (with_present flags)
                  else e)
                (walk-filled pd i w free s h small empty a lt);
        local = λ k lt was.
            global-entered pd v p flags free (filled pd i w s) f address word low there local k lt
              (global-filled pd i w free s h small empty k lt was);
        frames = λ w. refl;
      }

  -- The entry has a table or gets one, and then both entries are written.
  pub ensure-write :
      (free : List ℕ) (s : Machine)
      → IsSpace pd s free
      → (table s.memory pd (get_pd_index (mask_to_page v)) ≢ 0) ⊎ (0 < length free)
      → (s' : Machine) × ((ensure_table (pd + 4 * get_pd_index (mask_to_page v)) s
            >>= write_entries
                (pd + 4 * get_pd_index (mask_to_page v))
                (get_pt_index (mask_to_page v))
                p
                flags)
          ≡ ok s')
        × Maps pd v p flags s free s'
  unfolding ensure_table
  ensure-write free s h can =
      by_table (Bool-cases (table s.memory pd (get_pd_index (mask_to_page v)) == 0)) free h can
    where
      filled_there : (s : Machine) (w : ℕ) → 0 < frame s w → ¬ (frame s w ≡ 0)
      filled_there s w pos e = absurd (omega arith)

      by_table :
          ((table s.memory pd (get_pd_index (mask_to_page v)) == 0) ≡ true)
            ⊎ ((table s.memory pd (get_pd_index (mask_to_page v)) == 0) ≡ false)
          → (free : List ℕ) → IsSpace pd s free
          → (table s.memory pd (get_pd_index (mask_to_page v)) ≢ 0) ⊎ (0 < length free)
          → (s' : Machine) × ((ensure_table (pd + 4 * get_pd_index (mask_to_page v)) s
                >>= write_entries
                    (pd + 4 * get_pd_index (mask_to_page v))
                    (get_pt_index (mask_to_page v))
                    p
                    flags)
              ≡ ok s')
            × Maps pd v p flags s free s'
      by_table (inr used) free h can = (
        entered pd v p flags s,
        rw used (write_entries-entered pd v p flags free s h address word low (==→ne _ 0 used)),
        entered-Maps free s h (==→ne _ 0 used),
      )
      by_table (inl e) [] h (inl ne) = absurd (ne (==→eq _ 0 e))
      by_table (inl e) [] h (inr lt) = absurd (omega arith)
      by_table (inl e) (w ∷ free) h can =
          let i : ℕ = get_pd_index (mask_to_page v) in
          let empty : table s.memory pd i ≡ 0 = ==→eq _ 0 e in
          let small : i < 1024 = get_pd_index-lt v address in
          let f : IsSpare pd s (frame s w) = h.spare w (inl refl) in
          let there : table (filled pd i w s).memory pd i ≢ 0 = (λ z.
            filled_there s w (f.positive) (sym (table-filled pd i w free s h small empty) ∙ z)) in
          (
            entered pd v p flags (filled pd i w s),
            bind_ok _ (ensure_table-filled pd i w free s h empty)
                ∙ write_entries-entered pd v p flags free (filled pd i w s)
                    (filled-IsSpace pd i w free s h small empty) address word low there,
            filled-Maps w free s h empty there,
          )

  -- If the space has a table for the address or a free page to make one of, and neither the flags
  -- nor the entry of the directory are global, mapping returns.
  pub paging_map-Maps :
      (free : List ℕ) (s : Machine)
      → IsSpace pd s free
      → is_global (load32 s.memory (pd + 4 * get_pd_index (mask_to_page v))) ≡ false
      → (table s.memory pd (get_pd_index (mask_to_page v)) ≢ 0) ⊎ (0 < length free)
      → (s' : Machine) × (paging_map pd v p flags s ≡ ok s') × Maps pd v p flags s free s'
  unfolding paging_map
  paging_map-Maps free s h private can =
      let (s', writes, maps) = ensure-write free s h can in
      (
        s',
        rw local (
            bind_ok _ (ap (λ held. if held then panic else ok tt) h.unlocked)
            ∙ bind_ok _ (ap kassert h.pages.tables)
            ∙ bind_ok _ (translate-static s pd h.pages.tables h.static)
            ∙ rw private writes),
        maps,
      )

-- Mapping a page returns, and afterwards `paging_get` finds that page for each address in it and,
-- for each other address, what it found before. The address space is well-formed, it has a table
-- for the address or there is a free page for one, and neither the flags nor the directory's entry
-- are global.
pub paging_map-paging_get :
    (pd v p flags : ℕ) (free : List ℕ) (s : Machine)
    → v < 2 ^ 32
    → p < 2 ^ 32
    → flags < 4096
    → IsSpace pd s free
    → is_global flags ≡ false
    → is_global (load32 s.memory (pd + 4 * get_pd_index (mask_to_page v))) ≡ false
    → (table s.memory pd (get_pd_index (mask_to_page v)) ≢ 0) ⊎ (0 < length free)
    → (s' : Machine) × (paging_map pd v p flags s ≡ ok s')
      × ((a g : ℕ)
          → a < 2 ^ 32
          → paging_get pd a s ≡ ok g
          → paging_get pd a s'
            ≡ ok (if mask_to_page a == mask_to_page v then mask_to_page p else g))
paging_map-paging_get pd v p flags free s address word low h local private can =
    let (s', runs, maps) =
      paging_map-Maps pd v p flags address word low local free s h private can in
    (
      s',
      runs,
      λ a g lt before.
          paging_get-walk pd a s' maps.left maps.space lt
          ∙ ap ok (
              ap pte_get_paddr (maps.entry a lt)
              ∙ choose (mask_to_page a == mask_to_page v) (walk s.memory pd a) g
                  (ok-injective (sym (paging_get-walk pd a s free h lt) ∙ before))),
    )
  where
    frame_of : (x y : ℕ) → pte_get_paddr (pte_construct x y) ≡ mask_to_page x
    frame_of x y = omega arith

    choose :
        (b : Bool) (e g : ℕ)
        → pte_get_paddr e ≡ g
        → pte_get_paddr (if b then pte_construct p (with_present flags) else e)
          ≡ (if b then mask_to_page p else g)
    choose true e g eq = frame_of p (with_present flags)
    choose false e g eq = eq
