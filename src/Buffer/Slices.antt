-- ===== src/Buffer/Slices.antt =====
-- Stretches of a buffer: what they are after a part is stored or moved.
use Prim.Native.Nat.{min}
use yetanotheros.Common.{
  ℕ, zero, suc, ◌+◌, ◌-◌, ◌<◌, ◌≡◌, inl, refl, sym, ap, ◌∙◌, subst, List, [], ◌∷◌, ◌++◌, length,
  take, drop, arith,
}
use yetanotheros.Common.Store.{write, write_self, write_ne}
use yetanotheros.Vfs.Transfer.{store_bytes}
use yetanotheros.Vfs.Reading.{store_bytes-outside}
use yetanotheros.Buffer.Ring.{move_loop, slice}

pub slice-same :
    (m m' : ℕ → ℕ) (from from' n : ℕ)
    → ((i : ℕ) → i < n → m (from + i) ≡ m' (from' + i))
    → slice m from n ≡ slice m' from' n
unfolding slice
slice-same m m' from from' zero same = refl
slice-same m m' from from' (suc n) same =
    cons-eq
      (subst (λ k. m k ≡ m' from') (omega arith)
        (subst (λ k. m (from + 0) ≡ m' k) (omega arith) (same 0 (omega arith))))
      (slice-same m m' (from + 1) (from' + 1) n λ i lt.
        subst (λ k. m k ≡ m' (from' + 1 + i)) (omega arith)
          (subst (λ k. m (from + suc i) ≡ m' k) (omega arith) (same (suc i) (omega arith))))
  where
    cons-eq : {x y : ℕ} {xs ys : List ℕ} → x ≡ y → xs ≡ ys → x ∷ xs ≡ y ∷ ys
    cons-eq e f = cc

pub slice-at :
    (m : ℕ → ℕ) (from from' n n' : ℕ) → from ≡ from' → n ≡ n' → slice m from n ≡ slice m from' n'
slice-at m from from' n n' e f = cc

pub length-slice : (m : ℕ → ℕ) (from n : ℕ) → length (slice m from n) ≡ n
unfolding slice
length-slice m from zero = refl
length-slice m from (suc n) = ap suc (length-slice m (from + 1) n)

pub take-slice : (m : ℕ → ℕ) (from n k : ℕ) → take k (slice m from n) ≡ slice m from (min n k)
unfolding slice
take-slice m from n zero = slice-at m from from 0 (min n 0) refl (omega arith)
take-slice m from zero (suc k) = slice-at m from from 0 (min 0 (suc k)) refl (omega arith)
take-slice m from (suc n) (suc k) =
    ap (λ xs. m from ∷ xs) (take-slice m (from + 1) n k)
    ∙ slice-at m from from (suc (min n k)) (min (suc n) (suc k)) refl (omega arith)

pub drop-slice :
    (m : ℕ → ℕ) (from n k : ℕ) → drop k (slice m from n) ≡ slice m (from + min n k) (n - min n k)
unfolding slice
drop-slice m from n zero =
    slice-at m from (from + min n 0) n (n - min n 0) (omega arith) (omega arith)
drop-slice m from zero (suc k) =
    slice-at m from (from + min 0 (suc k)) 0 (0 - min 0 (suc k)) (omega arith) (omega arith)
drop-slice m from (suc n) (suc k) =
    drop-slice m (from + 1) n k
    ∙ slice-at m (from + 1 + min n k) (from + min (suc n) (suc k)) (n - min n k)
        (suc n - min (suc n) (suc k)) (omega arith) (omega arith)

slice-append :
    (m : ℕ → ℕ) (from n k l : ℕ)
    → l ≡ n + k
    → slice m from l ≡ slice m from n ++ slice m (from + n) k
unfolding slice
slice-append m from zero k l e =
    ap (slice m from) (omega arith) ∙ ap (λ f. slice m f k) (omega arith)
slice-append m from (suc n) k zero e = absurd (omega arith)
slice-append m from (suc n) k (suc l) e =
    ap (λ xs. m from ∷ xs)
      (slice-append m (from + 1) n k l (omega arith)
        ∙ ap (λ f. slice m (from + 1) n ++ slice m f k) (omega arith))

slice-store_bytes :
    (m : ℕ → ℕ) (from : ℕ) (bytes : List ℕ)
    → slice (store_bytes m from bytes) from (length bytes) ≡ bytes
unfolding slice store_bytes
slice-store_bytes m from [] = refl
slice-store_bytes m from (c ∷ bytes) =
    ap (λ x. x ∷ slice (store_bytes (write m from c) (from + 1) bytes) (from + 1) (length bytes))
      (store_bytes-outside (write m from c) (from + 1) bytes from (inl (omega arith))
        ∙ write_self m from c)
    ∙ ap (λ xs. c ∷ xs) (slice-store_bytes (write m from c) (from + 1) bytes)

move_loop-below : (count i head : ℕ) (m : ℕ → ℕ) (j : ℕ) → j < i → move_loop count i head m j ≡ m j
unfolding move_loop
move_loop-below zero i head m j lt = refl
move_loop-below (suc count) i head m j lt =
    move_loop-below count (i + 1) head (write m i (m (head + i))) j (omega arith)
    ∙ write_ne m i (m (head + i)) j (λ e. absurd (omega arith))

-- The loop moves the bytes down, though the two areas may overlap.
pub move_loop-slice :
    (count i head : ℕ) (m : ℕ → ℕ)
    → 0 < head
    → slice (move_loop count i head m) i count ≡ slice m (head + i) count
unfolding slice move_loop
move_loop-slice zero i head m pos = refl
move_loop-slice (suc count) i head m pos =
    ap (λ x. x ∷ slice (move_loop count (i + 1) head m1) (i + 1) count)
      (move_loop-below count (i + 1) head m1 i (omega arith) ∙ write_self m i (m (head + i)))
    ∙ ap (λ xs. m (head + i) ∷ xs)
        (move_loop-slice count (i + 1) head m1 pos
          ∙ slice-same m1 m (head + (i + 1)) (head + i + 1) count (λ k lt.
            write_ne m i (m (head + i)) (head + (i + 1) + k) (λ e. absurd (omega arith))
            ∙ ap m (omega arith)))
  where
    m1 : ℕ → ℕ
    m1 = write m i (m (head + i))

pub take-min : (n : ℕ) (xs : List ℕ) → take (min n (length xs)) xs ≡ take n xs
take-min zero xs =
    let none_left : 0 ≡ min 0 (length xs) = omega arith in
    subst (λ k. take k xs ≡ []) none_left refl
take-min (suc n) [] =
    let none_left : 0 ≡ min (suc n) 0 = omega arith in
    subst (λ k. take {A = ℕ} k [] ≡ []) none_left refl
take-min (suc n) (x ∷ xs) =
    let more : suc (min n (length xs)) ≡ min (suc n) (suc (length xs)) = omega arith in
    subst (λ k. take k (x ∷ xs) ≡ x ∷ take n xs) more (ap (λ ys. x ∷ ys) (take-min n xs))

-- Bytes stored behind a stretch
pub slice-stored :
    (m : ℕ → ℕ) (from n tail : ℕ) (bytes : List ℕ) (l k : ℕ)
    → from + n ≡ tail
    → length bytes ≡ k
    → l ≡ n + k
    → slice (store_bytes m tail bytes) from l ≡ slice m from n ++ bytes
slice-stored m from n tail bytes l k at size whole =
    slice-append (store_bytes m tail bytes) from n k l whole
    ∙ ap (λ xs. xs ++ slice (store_bytes m tail bytes) (from + n) k)
        (slice-same (store_bytes m tail bytes) m from from n
          (λ i lt. store_bytes-outside m tail bytes (from + i) (inl (omega arith))))
    ∙ ap (λ xs. slice m from n ++ xs)
        (slice-at (store_bytes m tail bytes) (from + n) tail k (length bytes) at (sym size)
          ∙ slice-store_bytes m tail bytes)
