-- ===== src/Paging/Map.antt =====
-- What `paging_map` does to the address space.
use Prim.Native.Nat.{bit_or}
use yetanotheros.Common.{
  ℕ, ◌+◌, ◌*◌, ◌/◌, ◌%◌, ◌^◌, ◌<◌, ◌≤◌, ◌≡◌, ◌≢◌, ◌⊎◌, inl, inr, refl, sym, ap, ◌∙◌, subst, true,
  false, ◌==◌, if◌then◌else◌, arith, Bool-cases, ==→ne, ==→eq,
}
use yetanotheros.Libc.Memory.{Bytes}
use yetanotheros.Paging.Bits.{div-bit_or, bit_or-lt, bit-bit_or}
use yetanotheros.Paging.Words.{
  load32, store32, load32-store32, load32-store32_ne, AreBytes, load32-word,
}
use yetanotheros.Paging.Tables.{page_bit_present, is_global, pte_get_paddr, pte_construct}
use yetanotheros.Paging.Space.{table, word-beside-word}

-- The flags of an entry that is made
abbrev pub with_present : ℕ → ℕ
with_present flags = bit_or flags page_bit_present

-- The new entry of the directory
abbrev pub entry_with : ℕ → ℕ → ℕ → Bytes → ℕ
entry_with pd i flags m = bit_or (load32 m (pd + 4 * i)) (with_present flags)

is_global-bit_or :
    (a b : ℕ) → is_global a ≡ false → is_global b ≡ false → is_global (bit_or a b) ≡ false
is_global-bit_or a b ha hb = ground (arith, bit-bit_or a b)

-- Memory with both entries written
abbrev pub written : ℕ → ℕ → ℕ → ℕ → ℕ → Bytes → Bytes
written pd i pti p flags m =
    store32 (store32 m (pd + 4 * i) (entry_with pd i flags m)) (table m pd i + 4 * pti)
      (pte_construct p (with_present flags))

module _ (m : Bytes) (pd i pti p flags : ℕ) (bytes : AreBytes m) (small : i < 1024)
    (small' : pti < 1024) (directory : pd % 4096 ≡ 0) (word : p < 2 ^ 32) (low : flags < 4096)
    (own : table m pd i ≢ pd) where
  pub entry-table : entry_with pd i flags m / 4096 ≡ load32 m (pd + 4 * i) / 4096
  entry-table =
      div-bit_or (load32 m (pd + 4 * i)) (with_present flags) (bit_or-lt flags 1 low (omega arith))

  entry-word : entry_with pd i flags m < 2 ^ 32
  entry-word = omega (arith, entry-table, load32-word m (pd + 4 * i) bytes)

  load32-written :
      (k : ℕ)
      → k < 1024
      → load32 (written pd i pti p flags m) (pd + 4 * k)
        ≡ (if k == i then entry_with pd i flags m else load32 m (pd + 4 * k))
  load32-written k lt =
      load32-store32_ne (store32 m (pd + 4 * i) (entry_with pd i flags m)) (table m pd i + 4 * pti)
        (pte_construct p (with_present flags)) (pd + 4 * k)
        (word-beside-word (table m pd i) pti pd k (omega arith) small' directory lt
          (λ e. own (sym e)))
      ∙ entries (Bool-cases (k == i))
    where
      apart : (k : ℕ) → k ≢ i → (pd + 4 * k + 4 ≤ pd + 4 * i) ⊎ (pd + 4 * i + 4 ≤ pd + 4 * k)
      apart k ne = ground arith

      entries :
          ((k == i) ≡ true) ⊎ ((k == i) ≡ false)
          → load32 (store32 m (pd + 4 * i) (entry_with pd i flags m)) (pd + 4 * k)
            ≡ (if k == i then entry_with pd i flags m else load32 m (pd + 4 * k))
      entries (inl e) = rw e (
          subst
            (λ x.
              load32 (store32 m (pd + 4 * i) (entry_with pd i flags m)) (pd + 4 * x)
              ≡ entry_with pd i flags m)
            (sym (==→eq k i e))
            (load32-store32 m (pd + 4 * i) (entry_with pd i flags m) entry-word))
      entries (inr n) = rw n (
          load32-store32_ne m (pd + 4 * i) (entry_with pd i flags m) (pd + 4 * k)
            (apart k (==→ne k i n)))

  pub table-written : (k : ℕ) → k < 1024 → table (written pd i pti p flags m) pd k ≡ table m pd k
  table-written k lt = ap pte_get_paddr (load32-written k lt) ∙ same (Bool-cases (k == i))
    where
      same :
          ((k == i) ≡ true) ⊎ ((k == i) ≡ false)
          → pte_get_paddr (if k == i then entry_with pd i flags m else load32 m (pd + 4 * k))
            ≡ table m pd k
      same (inl e) = rw e (
          subst (λ x. pte_get_paddr (entry_with pd i flags m) ≡ table m pd x) (sym (==→eq k i e))
            (ap (λ x. x * 4096) entry-table))
      same (inr n) = rw n refl

  -- No entry of the directory becomes global.
  pub global-written :
      is_global flags ≡ false
      → (k : ℕ) → k < 1024
      → is_global (load32 m (pd + 4 * k)) ≡ false
      → is_global (load32 (written pd i pti p flags m) (pd + 4 * k)) ≡ false
  global-written local k lt was = ap is_global (load32-written k lt) ∙ same (Bool-cases (k == i))
    where
      same :
          ((k == i) ≡ true) ⊎ ((k == i) ≡ false)
          → is_global (if k == i then entry_with pd i flags m else load32 m (pd + 4 * k)) ≡ false
      same (inl e) = rw e (
          is_global-bit_or (load32 m (pd + 4 * i)) (with_present flags)
            (subst (λ x. is_global (load32 m (pd + 4 * x)) ≡ false) (==→eq k i e) was)
            (is_global-bit_or flags 1 local refl))
      same (inr n) = rw n was

  -- The word that was written
  pub written_self :
      load32 (written pd i pti p flags m) (table m pd i + 4 * pti)
      ≡ pte_construct p (with_present flags)
  written_self =
      load32-store32 (store32 m (pd + 4 * i) (entry_with pd i flags m)) (table m pd i + 4 * pti)
        (pte_construct p (with_present flags)) (omega arith)

  -- Other words of tables stay.
  pub written_ne :
      (t n : ℕ)
      → t % 4096 ≡ 0
      → n < 1024
      → t ≢ pd
      → (t ≢ table m pd i) ⊎ (n ≢ pti)
      → load32 (written pd i pti p flags m) (t + 4 * n) ≡ load32 m (t + 4 * n)
  written_ne t n ht lt ne other =
      load32-store32_ne (store32 m (pd + 4 * i) (entry_with pd i flags m)) (table m pd i + 4 * pti)
        (pte_construct p (with_present flags)) (t + 4 * n)
        (beside (table m pd i) (omega arith) other)
      ∙ load32-store32_ne m (pd + 4 * i) (entry_with pd i flags m) (t + 4 * n)
          (word-beside-word pd i t n directory small ht lt ne)
    where
      beside :
          (u : ℕ)
          → u % 4096 ≡ 0
          → (t ≢ u) ⊎ (n ≢ pti)
          → (t + 4 * n + 4 ≤ u + 4 * pti) ⊎ (u + 4 * pti + 4 ≤ t + 4 * n)
      beside u hu o = ground arith
