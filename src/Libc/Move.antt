-- ===== src/Libc/Move.antt =====
-- `memmove` and `memcpy` against a copy of all bytes at once.
use yetanotheros.Common.{
  ℕ, zero, suc, ◌+◌, ◌-◌, ◌≡◌, ◌<◌, ◌≤◌, refl, sym, ap, ◌∙◌, ◌==◌, ◌&&◌, if◌then◌else◌, ltb, leb,
  Bool-cases, ==→eq, ==→ne, ◌⊎◌, inl, inr, arith, ltb→lt,
}
use yetanotheros.Common.Store.{write, write_self, write_ne}
use yetanotheros.Libc.Memory.{Bytes, copy_up, copy_down, memcpy, memmove}

-- All bytes at once, read from the memory before.
unfoldable pub copied : ℕ → ℕ → ℕ → Bytes → Bytes
copied dst src n m q = if leb dst q && ltb q (dst + n) then m (src + (q - dst)) else m q

copied-in :
    (dst src n q : ℕ) (m : Bytes)
    → dst ≤ q
    → q < dst + n
    → copied dst src n m q ≡ m (src + (q - dst))
unfolding copied
copied-in dst src n q m lo hi = ground arith

copied-out : (dst src n q : ℕ) (m : Bytes) → (q < dst) ⊎ (dst + n ≤ q) → copied dst src n m q ≡ m q
unfolding copied
copied-out dst src n q m out = ground arith

-- Upwards, no byte is written before it is read if the target is below the source.
copy_up-out :
    (dst src n q : ℕ) (m : Bytes) → (q < dst) ⊎ (dst + n ≤ q) → copy_up dst src n m q ≡ m q
unfolding copy_up
copy_up-out dst src zero q m out = refl
copy_up-out dst src (suc n) q m out =
    copy_up-out (dst + 1) (src + 1) n q (write m dst (m src)) (grind arith)
    ∙ write_ne m dst (m src) q (grind arith)

copy_up-in :
    (dst src n q : ℕ) (m : Bytes)
    → dst < src
    → dst ≤ q
    → q < dst + n
    → copy_up dst src n m q ≡ m (src + (q - dst))
unfolding copy_up
copy_up-in dst src zero q m below lo hi = absurd (omega arith)
copy_up-in dst src (suc n) q m below lo hi =
    let m1 : Bytes = write m dst (m src) in
    elim (Bool-cases (q == dst)) [
      | inl y ↦
          let at = ==→eq q dst y in
          copy_up-out (dst + 1) (src + 1) n q m1 (inl (omega (arith, at)))
          ∙ ap m1 at
          ∙ write_self m dst (m src)
          ∙ ap m (omega (arith, at))
      | inr k ↦
          let ne = ==→ne q dst k in
          copy_up-in (dst + 1) (src + 1) n q m1 (omega arith) (omega (arith, ne)) (omega arith)
          ∙ write_ne m dst (m src) (src + 1 + (q - (dst + 1))) (omega arith)
          ∙ ap m (omega (arith, ne))
    ]

copy_down-out :
    (dst src n q : ℕ) (m : Bytes) → (q < dst) ⊎ (dst + n ≤ q) → copy_down dst src n m q ≡ m q
unfolding copy_down
copy_down-out dst src zero q m out = refl
copy_down-out dst src (suc n) q m out =
    copy_down-out dst src n q (write m (dst + n) (m (src + n))) (grind arith)
    ∙ write_ne m (dst + n) (m (src + n)) q (grind arith)

copy_down-in :
    (dst src n q : ℕ) (m : Bytes)
    → src ≤ dst
    → dst ≤ q
    → q < dst + n
    → copy_down dst src n m q ≡ m (src + (q - dst))
unfolding copy_down
copy_down-in dst src zero q m above lo hi = absurd (omega arith)
copy_down-in dst src (suc n) q m above lo hi =
    let m1 : Bytes = write m (dst + n) (m (src + n)) in
    elim (Bool-cases (q == dst + n)) [
      | inl y ↦
          let at = ==→eq q (dst + n) y in
          copy_down-out dst src n q m1 (inr (omega (arith, at)))
          ∙ ap m1 at
          ∙ write_self m (dst + n) (m (src + n))
          ∙ ap m (omega (arith, at))
      | inr k ↦
          let ne = ==→ne q (dst + n) k in
          copy_down-in dst src n q m1 above lo (omega (arith, ne))
          ∙ write_ne m (dst + n) (m (src + n)) (src + (q - dst)) (omega (arith, ne))
    ]

by_place : (dst n q : ℕ) → ((q < dst) ⊎ (dst + n ≤ q)) ⊎ ((dst ≤ q) × (q < dst + n))
by_place dst n q = elim (Bool-cases (ltb q dst)) [
  | inl y ↦ inl (inl (ltb→lt q dst y))
  | inr k ↦ elim (Bool-cases (ltb q (dst + n))) [
    | inl y ↦ inr (ground arith, ltb→lt q (dst + n) y)
    | inr j ↦ inl (inr (ground arith))
  ]
]

copy_up-copied :
    (dst src size q : ℕ) (m : Bytes)
    → dst < src
    → copy_up dst src size m q ≡ copied dst src size m q
copy_up-copied dst src size q m below = elim (by_place dst size q) [
  | inl out ↦ copy_up-out dst src size q m out ∙ sym (copied-out dst src size q m out)
  | inr (lo, hi) ↦ copy_up-in dst src size q m below lo hi ∙ sym (copied-in dst src size q m lo hi)
]

copy_down-copied :
    (dst src size q : ℕ) (m : Bytes)
    → src ≤ dst
    → copy_down dst src size m q ≡ copied dst src size m q
copy_down-copied dst src size q m above = elim (by_place dst size q) [
  | inl out ↦ copy_down-out dst src size q m out ∙ sym (copied-out dst src size q m out)
  | inr (lo, hi) ↦
      copy_down-in dst src size q m above lo hi ∙ sym (copied-in dst src size q m lo hi)
]

-- However the two areas overlap, after `memmove` every address holds what a copy of all bytes at
-- once from the memory before would put there.
pub memmove-copied :
    (dst src size q : ℕ) (m : Bytes) → memmove dst src size m q ≡ copied dst src size m q
unfolding memmove
memmove-copied dst src size q m = elim (Bool-cases (ltb dst src)) [
  | inl y ↦ rw y (copy_up-copied dst src size q m (ltb→lt dst src y))
  | inr k ↦ rw k (copy_down-copied dst src size q m (ground arith))
]

-- `memcpy` agrees with `memmove` at every address if the target begins below the source.
pub memcpy-memmove :
    (dst src size q : ℕ) (m : Bytes)
    → dst < src
    → memcpy dst src size m q ≡ memmove dst src size m q
unfolding memcpy
memcpy-memmove dst src size q m below =
    copy_up-copied dst src size q m below ∙ sym (memmove-copied dst src size q m)
