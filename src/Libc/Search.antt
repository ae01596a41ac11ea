-- ===== src/Libc/Search.antt =====
-- Comparison finds equal strings, and `strstr` an occurrence if there is one.
use yetanotheros.Common.{
  ℕ, ◌≡◌, ◌≢◌, ◌↔◌, ◌<◌, ◌≤◌, refl, sym, subst, ap, ◌∙◌, false, Option, none, some, List, [], ◌∷◌,
  ◌++◌, ltb, length, arith, ◌⊎◌, inl, inr, Bool-cases, ne→==, ltb→lt, length-append,
}
use yetanotheros.Common.Outcome.{Outcome, ok, ok-injective}
use yetanotheros.Libc.Memory.{Sign, minus_one, nought, one}
use yetanotheros.Libc.Strings.{compare_with, strncmp, strcmp, is_nought, strstr_loop, strstr}

-- One round of a comparison
compare_with-cases :
    (rest : Outcome Sign) (a b : ℕ)
    → ((a ≡ b) × (compare_with rest a b ≡ rest))
      ⊎ ((a ≢ b) × (x : Sign) × (compare_with rest a b ≡ ok x) × (is_nought x ≡ false))
compare_with-cases rest a b = elim (Bool-cases (ltb a b)) [
  | inl y ↦ inr ((λ e. omega (arith, e, ltb→lt a b y)), minus_one, rw y refl, refl)
  | inr n ↦ elim (Bool-cases (ltb b a)) [
    | inl y ↦ inr ((λ e. omega (arith, e, ltb→lt b a y)), one, rw (n, y) refl, refl)
    | inr k ↦ inl (ground arith, rw (n, k) refl)
  ]
]

-- Within a string that is long enough, `strncmp` returns, and nought if and only if the string
-- begins with the other.
abbrev Compared : List ℕ → List ℕ → Type 0
Compared s t =
    ((back : List ℕ) × (s ≡ t ++ back) × (strncmp s t (length t) ≡ ok nought))
    ⊎ ((x : Sign) × (strncmp s t (length t) ≡ ok x)
        × (is_nought x ≡ false)
        × ((back : List ℕ) → s ≢ t ++ back))

cons-injective : {a b : ℕ} {xs ys : List ℕ} → a ∷ xs ≡ b ∷ ys → (a ≡ b) × (xs ≡ ys)
cons-injective e = (cc, cc)

strncmp-Compared : (s t : List ℕ) → length t ≤ length s → Compared s t
unfolding strncmp
strncmp-Compared s [] le = inl (s, refl, refl)
strncmp-Compared [] (b ∷ ys) le = absurd (omega arith)
strncmp-Compared (a ∷ xs) (b ∷ ys) le = elim (compare_with-cases (strncmp xs ys (length ys)) a b) [
  | inr (ne, x, is, differs) ↦ inr (x, is, differs, λ back e. ne (cons-injective e).0)
  | inl (eq, go) ↦ elim (strncmp-Compared xs ys (omega arith)) [
    | inl (back, is, r) ↦ inl (back, ap (λ c. c ∷ xs) eq ∙ ap (λ l. b ∷ l) is, go ∙ r)
    | inr (x, r, differs, never) ↦
        inr (x, go ∙ r, differs, λ back e. never back (cons-injective e).1)
  ]
]

-- What a search comes to: the rest of the string from an occurrence on, or there is none.
abbrev pub Finds : List ℕ → List ℕ → Outcome (Option (List ℕ)) → Type 0
Finds s t r =
    ((front back : List ℕ) × (s ≡ front ++ (t ++ back)) × (r ≡ ok (some (t ++ back))))
    ⊎ ((r ≡ ok none) × ((front back : List ℕ) → s ≢ front ++ (t ++ back)))

long : (s t front back : List ℕ) → s ≡ front ++ (t ++ back) → length t ≤ length s
long s t front back e =
    omega (arith, ap length e, length-append front (t ++ back), length-append t back)

-- Nowhere in a string, if neither at its start nor in its rest
nowhere_cons :
    (a : ℕ) (xs t : List ℕ)
    → ((back : List ℕ) → a ∷ xs ≢ t ++ back)
    → ((front back : List ℕ) → xs ≢ front ++ (t ++ back))
    → (front back : List ℕ) → a ∷ xs ≢ front ++ (t ++ back)
nowhere_cons a xs t start later [] back e = start back e
nowhere_cons a xs t start later (f ∷ front) back e = later front back (cons-injective e).1

strstr_loop-Finds : (s t : List ℕ) → 0 < length t → Finds s t (strstr_loop s t)
unfolding strstr_loop
strstr_loop-Finds [] t pos = inr (refl, λ front back e. omega (arith, long [] t front back e))
strstr_loop-Finds (a ∷ xs) t pos = elim (Bool-cases (ltb (length (a ∷ xs)) (length t))) [
  | inl y ↦ inr (
    rw y refl,
    λ front back e.
        omega (arith, long (a ∷ xs) t front back e, ltb→lt (length (a ∷ xs)) (length t) y),
  )
  | inr k ↦ elim (strncmp-Compared (a ∷ xs) t (ground arith)) [
    | inl (back, is, r) ↦ inl ([], back, is, rw (k, r) (ap (λ l. ok (some l)) is))
    | inr (x, r, differs, never) ↦ elim (strstr_loop-Finds xs t pos) [
      | inl (front, back, is, r') ↦ inl (a ∷ front, back, ap (λ l. a ∷ l) is, rw (k, r, differs) r')
      | inr (r', later) ↦ inr (rw (k, r, differs) r', nowhere_cons a xs t never later)
    ]
  ]
]

-- `strstr` returns for all strings: the rest of the first from an occurrence of the second on, or
-- NULL, and then the second occurs nowhere in the first.
pub strstr-Finds : (s t : List ℕ) → Finds s t (strstr s t)
unfolding strstr
strstr-Finds s [] = inl ([], s, refl, refl)
strstr-Finds s (b ∷ ys) = elim (Bool-cases (ltb (length s) (length (b ∷ ys)))) [
  | inl y ↦ inr (
    rw (ne→== (length (b ∷ ys)) 0 (omega arith), y) refl,
    λ front back e.
        omega (arith, long s (b ∷ ys) front back e, ltb→lt (length s) (length (b ∷ ys)) y),
  )
  | inr k ↦
      rw (ne→== (length (b ∷ ys)) 0 (omega arith), k) (strstr_loop-Finds s (b ∷ ys) (omega arith))
]

append_nil : (xs : List ℕ) → xs ++ [] ≡ xs
append_nil [] = refl
append_nil (x ∷ xs) = ap (λ l. x ∷ l) (append_nil xs)

same_length : (s t back : List ℕ) → length s ≡ length t → s ≡ t ++ back → s ≡ t
same_length s t [] same e = e ∙ append_nil t
same_length s t (b ∷ back) same e =
    absurd (omega (arith, same, ap length e, length-append t (b ∷ back)))

strncmp-same : (s t : List ℕ) → length s ≡ length t → (strncmp s t (length s) ≡ ok nought) ↔ (s ≡ t)
strncmp-same s t same =
    subst (λ n. (strncmp s t n ≡ ok nought) ↔ (s ≡ t)) (sym same)
      (elim (strncmp-Compared s t (omega (arith, same))) [
        | inl (back, is, r) ↦ (λ e. same_length s t back same is, λ e. r)
        | inr (x, r, differs, never) ↦ (
          λ e. absurd (not_nought x differs (ok-injective (sym r ∙ e))),
          λ e. absurd (never [] (e ∙ sym (append_nil t))),
        )
      ])
  where
    not_nought : (x : Sign) → is_nought x ≡ false → x ≢ nought
    not_nought x differs e = cc

-- `strcmp` answers 0 if and only if the strings are equal.
pub strcmp-nought : (s t : List ℕ) → (strcmp s t ≡ ok nought) ↔ (s ≡ t)
unfolding strcmp
strcmp-nought s t = elim (Bool-cases (ltb (length t) (length s))) [
  | inl y ↦ (
    λ e. absurd (one_differs (ok-injective (rw y at e))),
    λ e. absurd (omega (arith, ap length e, ltb→lt (length t) (length s) y)),
  )
  | inr n ↦ elim (Bool-cases (ltb (length s) (length t))) [
    | inl y ↦ (
      λ e. absurd (minus_one_differs (ok-injective (rw (n, y) at e))),
      λ e. absurd (omega (arith, ap length e, ltb→lt (length s) (length t) y)),
    )
    | inr k ↦ rw (n, k) (strncmp-same s t (ground arith))
  ]
]
  where
    one_differs : one ≢ nought
    one_differs e = cc

    minus_one_differs : minus_one ≢ nought
    minus_one_differs e = cc
