-- ===== src/Paging/Fill.antt =====
-- A space stays well-formed when an entry of its directory gets a table.
use yetanotheros.Common.{
  ℕ, ◌+◌, ◌*◌, ◌^◌, ◌<◌, ◌≡◌, ◌≢◌, ◌⊎◌, inl, inr, refl, sym, ◌∙◌, subst, true, false, List, ◌∷◌,
  ◌==◌, Bool-cases, ==→ne, ==→eq,
}
use yetanotheros.Palloc.FreeList.{taken-IsPalloc}
use yetanotheros.Paging.Tables.{Machine, is_global}
use yetanotheros.Paging.Words.{load32}
use yetanotheros.Paging.Ensure.{
  filled, table-with_table_self, table-with_table_ne, walk-with_table, with_table-AreBytes,
  global-with_table,
}
use yetanotheros.Paging.Space.{table, walk, frame, IsSpare, IsSpace, frame_ne}
use yetanotheros.Vm.Layout.{vm_is_static_p}

module _ (pd i v : ℕ) (vs : List ℕ) (s : Machine) (h : IsSpace pd s (v ∷ vs)) (small : i < 1024)
    (empty : table s.memory pd i ≡ 0) where
  -- What entry `k` of the directory is afterwards
  new_table :
      (k : ℕ)
      → k < 1024
      → ((k ≡ i) × (table (filled pd i v s).memory pd k ≡ frame s v))
        ⊎ ((k ≢ i) × (table (filled pd i v s).memory pd k ≡ table s.memory pd k))
  new_table k lt =
      let f : IsSpare pd s (frame s v) = h.spare v (inl refl) in
      elim (Bool-cases (k == i)) [
        | inl e ↦ inl (
          ==→eq k i e,
          subst (λ x. table (filled pd i v s).memory pd x ≡ frame s v) (sym (==→eq k i e))
              (table-with_table_self s.memory pd i (frame s v) small h.aligned f.aligned f.word
                f.not_directory),
        )
        | inr n ↦ inr (
          ==→ne k i n,
          table-with_table_ne s.memory pd i (frame s v) small h.aligned f.aligned f.word
              f.not_directory k lt (==→ne k i n),
        )
      ]

  pub filled-IsSpace : IsSpace pd (filled pd i v s) vs
  filled-IsSpace =
      let f : IsSpare pd s (frame s v) = h.spare v (inl refl) in
      record {
        unlocked = h.unlocked;
        bytes = with_table-AreBytes s.memory pd i (frame s v) h.bytes;
        pages = taken-IsPalloc s.pages v vs h.pages;
        aligned = h.aligned;
        static = h.static;
        table_static = λ k lt ne. elim (new_table k lt) [
          | inl (e, new) ↦ subst (λ t. vm_is_static_p s.vm_map t ≡ true) (sym new) f.static
          | inr (n, old) ↦
              subst (λ t. vm_is_static_p s.vm_map t ≡ true) (sym old)
                (h.table_static k lt (λ z. ne (old ∙ z)))
        ];
        not_directory = λ k lt ne e. elim (new_table k lt) [
          | inl (_, new) ↦ f.not_directory (sym new ∙ e)
          | inr (_, old) ↦ h.not_directory k lt (λ z. ne (old ∙ z)) (sym old ∙ e)
        ];
        distinct = λ k j lt lt' ne e. elim (new_table k lt) [
          | inl (ke, new) ↦ elim (new_table j lt') [
            | inl (je, _) ↦ ke ∙ sym je
            | inr (_, old) ↦ absurd (f.not_table j lt' (sym old ∙ sym e ∙ new))
          ]
          | inr (_, old) ↦ elim (new_table j lt') [
            | inl (_, new) ↦ absurd (f.not_table k lt (sym old ∙ e ∙ new))
            | inr (_, old') ↦ h.distinct k j lt lt' (λ z. ne (old ∙ z)) (sym old ∙ e ∙ old')
          ]
        ];
        spare = λ w there.
            let g : IsSpare pd s (frame s w) = h.spare w (inr there) in
            record {
              aligned = g.aligned;
              positive = g.positive;
              word = g.word;
              static = g.static;
              not_directory = g.not_directory;
              not_table = λ k lt e. elim (new_table k lt) [
                | inl (_, new) ↦ frame_ne pd v vs s h w there (sym new ∙ e)
                | inr (_, old) ↦ g.not_table k lt (sym old ∙ e)
              ];
            };
      }

  pub walk-filled : (a : ℕ) → a < 2 ^ 32 → walk (filled pd i v s).memory pd a ≡ walk s.memory pd a
  walk-filled a lt =
      let f : IsSpare pd s (frame s v) = h.spare v (inl refl) in
      walk-with_table s.memory pd i (frame s v) small h.aligned f.aligned f.word f.not_directory
        empty f.not_table h.not_directory a lt

  pub table-filled : table (filled pd i v s).memory pd i ≡ frame s v
  table-filled =
      let f : IsSpare pd s (frame s v) = h.spare v (inl refl) in
      table-with_table_self s.memory pd i (frame s v) small h.aligned f.aligned f.word
        f.not_directory

  pub global-filled :
      (k : ℕ)
      → k < 1024
      → is_global (load32 s.memory (pd + 4 * k)) ≡ false
      → is_global (load32 (filled pd i v s).memory (pd + 4 * k)) ≡ false
  global-filled k lt was =
      let f : IsSpare pd s (frame s v) = h.spare v (inl refl) in
      global-with_table s.memory pd i (frame s v) small h.aligned f.aligned f.word f.not_directory k
        lt was
