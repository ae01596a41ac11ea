-- ===== src/Paging/Words.antt =====
-- Words of 32 bits in a memory of bytes, lowest byte first, and `kmemset` of
-- kernel/include/kernel/utils.h.
use yetanotheros.Common.{
  ℕ, zero, suc, ◌+◌, ◌*◌, ◌/◌, ◌%◌, ◌^◌, ◌<◌, ◌≤◌, ◌≡◌, ◌⊎◌, inl, inr, refl, ◌∙◌, ◌==◌, arith,
  Bool-cases,
}
use yetanotheros.Common.Store.{write, write_self, write_ne}
use yetanotheros.Libc.Memory.{Bytes}

unfoldable pub load32 : Bytes → ℕ → ℕ
load32 m a = m a + 256 * m (a + 1) + 65_536 * m (a + 2) + 16_777_216 * m (a + 3)

unfoldable pub store32 : Bytes → ℕ → ℕ → Bytes
store32 m a v =
    write (write (write (write m a (v % 256)) (a + 1) (v / 256 % 256)) (a + 2) (v / 65_536 % 256))
      (a + 3) (v / 16_777_216 % 256)

-- `kmemset`
unfoldable pub kmemset : ℕ → ℕ → ℕ → Bytes → Bytes
kmemset a val zero m = m
kmemset a val (suc len) m = kmemset (a + 1) val len (write m a val)

pub load32-store32 : (m : Bytes) (a v : ℕ) → v < 2 ^ 32 → load32 (store32 m a v) a ≡ v
unfolding load32 store32 write
load32-store32 m a v small = ground arith

pub store32_ne : (m : Bytes) (a v q : ℕ) → (q < a) ⊎ (a + 4 ≤ q) → store32 m a v q ≡ m q
unfolding store32 write
store32_ne m a v q out = ground arith

pub load32-store32_ne :
    (m : Bytes) (a v q : ℕ) → (q + 4 ≤ a) ⊎ (a + 4 ≤ q) → load32 (store32 m a v) q ≡ load32 m q
unfolding load32
load32-store32_ne m a v q out = omega (
  arith,
  store32_ne m a v q (ground arith),
  store32_ne m a v (q + 1) (ground arith),
  store32_ne m a v (q + 2) (ground arith),
  store32_ne m a v (q + 3) (ground arith),
)

pub kmemset_ne :
    (a val len : ℕ) (m : Bytes) (q : ℕ) → (q < a) ⊎ (a + len ≤ q) → kmemset a val len m q ≡ m q
unfolding kmemset
kmemset_ne a val zero m q out = refl
kmemset_ne a val (suc len) m q out =
    kmemset_ne (a + 1) val len (write m a val) q (ground arith) ∙ write_ne m a val q (ground arith)

pub kmemset-within :
    (a val len : ℕ) (m : Bytes) (q : ℕ) → a ≤ q → q < a + len → kmemset a val len m q ≡ val
unfolding kmemset
kmemset-within a val zero m q low high = absurd (omega arith)
kmemset-within a val (suc len) m q low high = elim (split q a low) [
  | inl e ↦ kmemset_ne (a + 1) val len (write m a val) q (inl (omega arith)) ∙ at_first e
  | inr later ↦ kmemset-within (a + 1) val len (write m a val) q later (omega arith)
]
  where
    split : (q a : ℕ) → a ≤ q → (q ≡ a) ⊎ (a + 1 ≤ q)
    split q a low = ground arith

    at_first : q ≡ a → write m a val q ≡ val
    at_first e = rw e (write_self m a val)

-- A page that has been cleared holds no words but 0.
pub load32-kmemset :
    (a len : ℕ) (m : Bytes) (q : ℕ) → a ≤ q → q + 4 ≤ a + len → load32 (kmemset a 0 len m) q ≡ 0
unfolding load32
load32-kmemset a len m q low high = omega (
  arith,
  kmemset-within a 0 len m q (omega arith) (omega arith),
  kmemset-within a 0 len m (q + 1) (omega arith) (omega arith),
  kmemset-within a 0 len m (q + 2) (omega arith) (omega arith),
  kmemset-within a 0 len m (q + 3) (omega arith) (omega arith),
)

pub load32-kmemset_ne :
    (a val len : ℕ) (m : Bytes) (q : ℕ)
    → (q + 4 ≤ a) ⊎ (a + len ≤ q)
    → load32 (kmemset a val len m) q ≡ load32 m q
unfolding load32
load32-kmemset_ne a val len m q out = omega (
  arith,
  kmemset_ne a val len m q (ground arith),
  kmemset_ne a val len m (q + 1) (ground arith),
  kmemset_ne a val len m (q + 2) (ground arith),
  kmemset_ne a val len m (q + 3) (ground arith),
)

-- Bytes
abbrev pub AreBytes : Bytes → Type 0
AreBytes m = (a : ℕ) → m a < 256

pub store32-AreBytes : (m : Bytes) (a v : ℕ) → AreBytes m → AreBytes (store32 m a v)
unfolding store32 write
store32-AreBytes m a v h q = ground (arith, h q)

pub kmemset-AreBytes : (a len : ℕ) (m : Bytes) → AreBytes m → AreBytes (kmemset a 0 len m)
unfolding kmemset write
kmemset-AreBytes a zero m h = h
kmemset-AreBytes a (suc len) m h = kmemset-AreBytes (a + 1) len (write m a 0) (cleared h)
  where
    cleared : AreBytes m → AreBytes (write m a 0)
    cleared h q = elim (Bool-cases (q == a)) [
      | inl y ↦ rw (write, y) (omega arith)
      | inr n ↦ rw (write, n) (h q)
    ]

pub load32-word : (m : Bytes) (a : ℕ) → AreBytes m → load32 m a < 2 ^ 32
unfolding load32
load32-word m a h = omega (arith, h a, h (a + 1), h (a + 2), h (a + 3))
