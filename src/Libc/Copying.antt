-- ===== src/Libc/Copying.antt =====
-- The copying functions of libc/string/strutils.c, on memory. A loop over a string is on fuel; it is
-- `none` when the fuel runs out before a terminator.
use yetanotheros.Common.{
  ℕ, zero, suc, ◌+◌, ◌<◌, ◌≤◌, ◌≡◌, ◌≢◌, sym, ap, ◌∙◌, subst, true, false, Option, none, some, List,
  [], ◌∷◌, ◌++◌, ◌==◌, if◌then◌else◌, length, arith,
}
use yetanotheros.Common.Store.{write}
use yetanotheros.Libc.Memory.{Bytes}

-- The loop of `strlen`
unfoldable pub strlen_loop : ℕ → Bytes → ℕ → ℕ → Option ℕ
strlen_loop zero m str len = none
strlen_loop (suc fuel) m str len =
    let rest = strlen_loop fuel m str (len + 1) in if m (str + len) == 0 then some len else rest

unfoldable pub strlen : ℕ → Bytes → ℕ → Option ℕ
unfolding strlen_loop
strlen fuel m str = strlen_loop fuel m str 0

-- The loop of `strncpy`: the memory, and where `ptr` stands at the end
unfoldable pub strncpy_loop : ℕ → ℕ → ℕ → Bytes → Bytes × ℕ
strncpy_loop zero ptr from m = (m, ptr)
strncpy_loop (suc num) ptr from m =
    let rest = strncpy_loop num (ptr + 1) (from + 1) (write m ptr (m from)) in
    if m from == 0 then (m, ptr) else rest

-- `strncpy`: the terminator comes on top of `num` characters.
unfoldable pub strncpy : ℕ → ℕ → ℕ → Bytes → Bytes
unfolding strncpy_loop
strncpy to from num m = let r = strncpy_loop num to from m in write r.0 r.1 0

unfoldable pub strcpy : ℕ → ℕ → ℕ → Bytes → Option Bytes
unfolding strlen strncpy
strcpy fuel to from m = elim (strlen fuel m from) [
  | none ↦ none
  | some num ↦ some (strncpy to from num m)
]

unfoldable pub strcat : ℕ → ℕ → ℕ → Bytes → Option Bytes
unfolding strlen strcpy
strcat fuel to from m = elim (strlen fuel m to) [
  | none ↦ none
  | some len ↦ strcpy fuel (to + len) from m
]

-- These characters, none of them a terminator, stand from an address on.
abbrev pub Holds : Bytes → ℕ → List ℕ → Type 0
Holds m a [] = Unit {0}
Holds m a (x ∷ xs) = (m a ≡ x) × (x ≢ 0) × Holds m (a + 1) xs

-- The string at an address
abbrev pub StringAt : Bytes → ℕ → List ℕ → Type 0
StringAt m a xs = Holds m a xs × (m (a + length xs) ≡ 0)

pub Holds-frame :
    (m k : Bytes) (a : ℕ) (xs : List ℕ)
    → Holds m a xs
    → ((i : ℕ) → a ≤ i → i < a + length xs → k i ≡ m i)
    → Holds k a xs
Holds-frame m k a [] h same = tt
Holds-frame m k a (x ∷ xs) (e, nonzero, h) same = (
  same a (omega arith) (omega arith) ∙ e,
  nonzero,
  Holds-frame m k (a + 1) xs h (λ i low high. same i (omega arith) (omega arith)),
)

pub Holds-append :
    (m : Bytes) (a : ℕ) (xs ys : List ℕ)
    → Holds m a xs
    → Holds m (a + length xs) ys
    → Holds m a (xs ++ ys)
Holds-append m a [] ys h k = subst (λ b. Holds m b ys) (a_lem a) k
  where
    a_lem : (a : ℕ) → a + 0 ≡ a
    a_lem a = omega arith
Holds-append m a (x ∷ xs) ys (e, nonzero, h) k =
    (e, nonzero, Holds-append m (a + 1) xs ys h (subst (λ b. Holds m b ys) (step a (length xs)) k))
  where
    step : (a n : ℕ) → a + suc n ≡ a + 1 + n
    step a n = omega arith

-- Enough fuel finds the length of a string.
strlen_loop-StringAt :
    (fuel : ℕ) (m : Bytes) (str len : ℕ) (xs : List ℕ)
    → StringAt m (str + len) xs
    → length xs < fuel
    → strlen_loop fuel m str len ≡ some (len + length xs)
unfolding strlen_loop
strlen_loop-StringAt zero m str len xs h enough = absurd (omega arith)
strlen_loop-StringAt (suc fuel) m str len [] (h, e) enough =
    rw (strlen_loop, zero_lem (m (str + len)) (sym (ap m (right (str + len))) ∙ e))
      (ap some (sym (right len)))
  where
    right : (n : ℕ) → n + 0 ≡ n
    right n = omega arith

    zero_lem : (c : ℕ) → c ≡ 0 → (c == 0) ≡ true
    zero_lem c e = ground arith
strlen_loop-StringAt (suc fuel) m str len (x ∷ xs) ((e, nonzero, h), t) enough =
    rw (strlen_loop, other (m (str + len)) e nonzero)
      (strlen_loop-StringAt fuel m str (len + 1) xs
          (subst (λ b. Holds m b xs) (apart str len) h, ap m (ends str len (length xs)) ∙ t)
          (omega arith)
        ∙ ap some (total len (length xs)))
  where
    other : (c : ℕ) → c ≡ x → x ≢ 0 → (c == 0) ≡ false
    other c e n = ground arith

    apart : (s l : ℕ) → s + l + 1 ≡ s + (l + 1)
    apart s l = omega arith

    ends : (s l n : ℕ) → s + (l + 1) + n ≡ s + l + suc n
    ends s l n = omega arith

    total : (l n : ℕ) → l + 1 + n ≡ l + suc n
    total l n = omega arith

pub strlen-StringAt :
    (fuel : ℕ) (m : Bytes) (str : ℕ) (xs : List ℕ)
    → StringAt m str xs
    → length xs < fuel
    → strlen fuel m str ≡ some (length xs)
unfolding strlen
strlen-StringAt fuel m str xs h enough =
    strlen_loop-StringAt fuel m str 0 xs (subst (λ a. StringAt m a xs) (plain str) h) enough
    ∙ ap some (sum (length xs))
  where
    plain : (a : ℕ) → a ≡ a + 0
    plain a = omega arith

    sum : (n : ℕ) → 0 + n ≡ n
    sum n = omega arith
