-- ===== src/Libc/CopyLaws.antt =====
-- `strcpy` and `strcat` of libc/string/strutils.c, between areas that do not overlap.
use yetanotheros.Common.{
  ℕ, suc, ◌+◌, ◌<◌, ◌≤◌, ◌≡◌, ◌≢◌, ◌⊎◌, inl, inr, refl, sym, ap, ◌∙◌, subst, false, some, List, [],
  ◌∷◌, ◌++◌, ◌==◌, length, length-append, arith,
}
use yetanotheros.Common.Store.{write, write_self, write_ne}
use yetanotheros.Libc.Memory.{Bytes}
use yetanotheros.Libc.Copying.{
  strncpy_loop, strncpy, strcpy, strcat, Holds, StringAt, Holds-frame, Holds-append,
  strlen-StringAt,
}

-- The memory `k` is `m` but for so many bytes at an address.
abbrev pub SameOutside : Bytes → Bytes → ℕ → ℕ → Type 0
SameOutside m k a n = (i : ℕ) → (i < a) ⊎ (a + n ≤ i) → k i ≡ m i

-- So many bytes at two addresses do not meet.
abbrev pub Apart : ℕ → ℕ → ℕ → ℕ → Type 0
Apart a n b k = (a + n ≤ b) ⊎ (b + k ≤ a)

record Copied (m : Bytes) (to : ℕ) (ys : List ℕ) (r : Bytes × ℕ) : Type 0 where
  at_end : r.1 ≡ to + length ys
  holds : Holds r.0 to ys
  same : SameOutside m r.0 to (length ys)

strncpy_loop-Copied :
    (m : Bytes) (to from : ℕ) (ys : List ℕ)
    → Holds m from ys
    → Apart to (length ys) from (length ys)
    → Copied m to ys (strncpy_loop (length ys) to from m)
unfolding strncpy_loop
strncpy_loop-Copied m to from [] h d = record {
  at_end = omega arith;
  holds = tt;
  same = λ i o. refl;
}
strncpy_loop-Copied m to from (y ∷ ys) (e, nonzero, h) d =
    let m1 : Bytes = write m to (m from) in
    let rest : Copied m1 (to + 1) ys (strncpy_loop (length ys) (to + 1) (from + 1) m1) =
      strncpy_loop-Copied m1 (to + 1) (from + 1) ys
        (Holds-frame m m1 (from + 1) ys h (λ i low high. write_ne m to (m from) i (ground arith)))
        (ground arith) in
    rw (strncpy_loop, going (m from) e)
      (record {
        at_end = omega (arith, rest.at_end);
        holds = (rest.same to (ground arith) ∙ write_self m to (m from) ∙ e, nonzero, rest.holds);
        same = λ i o. rest.same i (ground arith) ∙ write_ne m to (m from) i (ground arith);
      })
  where
    going : (c : ℕ) → c ≡ y → (c == 0) ≡ false
    going c e = ground arith

-- What `strcpy` leaves: the string at its destination, and nothing else changed
pub record Wrote (m : Bytes) (to : ℕ) (ys : List ℕ) (k : Bytes) : Type 0 where
  pub string : StringAt k to ys
  pub same : SameOutside m k to (suc (length ys))

strncpy-Wrote :
    (m : Bytes) (to from : ℕ) (ys : List ℕ)
    → Holds m from ys
    → Apart to (length ys) from (length ys)
    → Wrote m to ys (strncpy to from (length ys) m)
unfolding strncpy
strncpy-Wrote m to from ys h d =
    let r : Bytes × ℕ = strncpy_loop (length ys) to from m in
    let c : Copied m to ys r = strncpy_loop-Copied m to from ys h d in
    record {
      string = (
        Holds-frame r.0 (write r.0 r.1 0) to ys c.holds
            (λ i low high. write_ne r.0 r.1 0 i (omega (arith, c.at_end))),
        subst (λ e. write r.0 r.1 0 e ≡ 0) c.at_end (write_self r.0 r.1 0),
      );
      same = λ i o. write_ne r.0 r.1 0 i (outside i r.1 c.at_end o) ∙ c.same i (ground arith);
    }
  where
    outside : (i e : ℕ) → e ≡ to + length ys → (i < to) ⊎ (to + suc (length ys) ≤ i) → i ≢ e
    outside i e at o = ground arith

strcpy-Wrote :
    (fuel : ℕ) (m : Bytes) (to from : ℕ) (ys : List ℕ)
    → StringAt m from ys
    → Apart to (length ys) from (length ys)
    → length ys < fuel
    → (k : Bytes) × (strcpy fuel to from m ≡ some k) × Wrote m to ys k
unfolding strcpy
strcpy-Wrote fuel m to from ys h d enough = (
  strncpy to from (length ys) m,
  rw (strcpy, strlen-StringAt fuel m from ys h enough) refl,
  strncpy-Wrote m to from ys h.0 d,
)

-- `strcat` ends and appends: with fuel for both strings, and areas that do not overlap, each with
-- its terminator, the destination holds the first string and then the second one, with a
-- terminator, and no other address changes.
pub strcat-Wrote :
    (fuel : ℕ) (m : Bytes) (to from : ℕ) (xs ys : List ℕ)
    → StringAt m to xs
    → StringAt m from ys
    → Apart to (suc (length xs + length ys)) from (suc (length ys))
    → length xs < fuel
    → length ys < fuel
    → (k : Bytes) × (strcat fuel to from m ≡ some k) × Wrote m to (xs ++ ys) k
unfolding strcat
strcat-Wrote fuel m to from xs ys hx hy d fx fy =
    appended (strcpy-Wrote fuel m (to + length xs) from ys hy (ground arith) fy)
  where
    total : to + length xs + length ys ≡ to + length (xs ++ ys)
    total = omega (arith, length-append xs ys)

    appended :
        (k : Bytes) × (strcpy fuel (to + length xs) from m ≡ some k) × Wrote m (to + length xs) ys k
        → (k : Bytes) × (strcat fuel to from m ≡ some k) × Wrote m to (xs ++ ys) k
    appended (k, copies, w) = (
      k,
      rw (strcat, strlen-StringAt fuel m to xs hx fx) copies,
      record {
        string = (
          Holds-append k to xs ys (Holds-frame m k to xs hx.0 (λ i low high. w.same i (inl high)))
              w.string.0,
          ap k (sym total) ∙ w.string.1,
        );
        same = λ i o. w.same i (outside i o);
      },
    )
      where
        outside :
            (i : ℕ)
            → (i < to) ⊎ (to + suc (length (xs ++ ys)) ≤ i)
            → (i < to + length xs) ⊎ (to + length xs + suc (length ys) ≤ i)
        outside i (inl low) = inl (omega arith)
        outside i (inr high) = inr (omega (arith, length-append xs ys))
