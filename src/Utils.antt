-- ===== src/Utils.antt =====
-- kernel/kernel/utils.c: `kstrcmp`, on strings as the lists of their characters before the
-- terminator, none of which is the terminator.
use yetanotheros.Common.{
  ℕ, ◌≡◌, ◌↔◌, refl, sym, ap, ◌∙◌, subst, Bool, true, false, List, [], ◌∷◌, ◌++◌, ◌==◌,
  if◌then◌else◌, length, Bool-cases, ==→eq, eq→==, ◌⊎◌, inl, inr,
}
mod Tests

-- The loop, over the characters of the first string: behind the second one stands its terminator.
unfoldable pub equal_chars : List ℕ → List ℕ → Bool
equal_chars [] q = true
equal_chars (a ∷ xs) [] = false
equal_chars (a ∷ xs) (b ∷ ys) = let rest = equal_chars xs ys in if a == b then rest else false

-- `kstrcmp`: both lengths are those of the first string.
unfoldable pub kstrcmp : List ℕ → List ℕ → Bool
unfolding equal_chars
kstrcmp p q = let l1 = length p in let l2 = length p in if l1 == l2 then equal_chars p q else false

equal_chars-prefix : (p q : List ℕ) → equal_chars p q ≡ true → (rest : List ℕ) × (q ≡ p ++ rest)
unfolding equal_chars
equal_chars-prefix [] q e = (q, refl)
equal_chars-prefix (a ∷ xs) [] e = cc
equal_chars-prefix (a ∷ xs) (b ∷ ys) e = elim (Bool-cases (a == b)) [
  | inl y ↦
      let (rest, is) = equal_chars-prefix xs ys (rw y at e) in
      (rest, ap (λ l. b ∷ l) is ∙ ap (λ c. c ∷ (xs ++ rest)) (sym (==→eq a b y)))
  | inr n ↦ absurd (cc (rw n at e))
]

prefix-equal_chars : (p rest : List ℕ) → equal_chars p (p ++ rest) ≡ true
unfolding equal_chars
prefix-equal_chars [] rest = refl
prefix-equal_chars (a ∷ xs) rest = rw (eq→== a a refl) (prefix-equal_chars xs rest)

-- `kstrcmp` answers true if and only if the second string begins with the first: it does not tell
-- a string from a longer one.
pub kstrcmp-prefix : (p q : List ℕ) → (kstrcmp p q ≡ true) ↔ ((rest : List ℕ) × (q ≡ p ++ rest))
unfolding kstrcmp
kstrcmp-prefix p q = (
  λ e. equal_chars-prefix p q (rw (eq→== (length p) (length p) refl) at e),
  λ h.
      rw (eq→== (length p) (length p) refl)
        (subst (λ l. equal_chars p l ≡ true) (sym h.1) (prefix-equal_chars p h.0)),
)
