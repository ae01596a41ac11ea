-- ===== src/Paging/View.antt =====
-- The bytes of a range of virtual addresses as one list.
use yetanotheros.Common.{
  ℕ, zero, suc, ◌+◌, ◌<◌, ◌≡◌, refl, sym, ap, ◌∙◌, some, List, [], ◌∷◌, ◌++◌, length, get_elem?,
  arith,
}
use yetanotheros.Libc.Memory.{Bytes}
use yetanotheros.Buffer.Ring.{slice}
use yetanotheros.Paging.DataPages.{phys}

-- The bytes of a range of virtual addresses
unfoldable pub view : Bytes → ℕ → ℕ → ℕ → List ℕ
view m pd v zero = []
view m pd v (suc n) = m (phys m pd v) ∷ view m pd (v + 1) n

pub slice-view :
    (m : Bytes) (pd v base n : ℕ)
    → ((j : ℕ) → j < n → phys m pd (v + j) ≡ base + j)
    → slice m base n ≡ view m pd v n
unfolding slice view
slice-view m pd v base zero h = refl
slice-view m pd v base (suc n) h =
    (λ i. m (start i) ∷ slice m (base + 1) n)
    ∙ ap (λ bs. m (phys m pd v) ∷ bs)
        (slice-view m pd (v + 1) (base + 1) n
          (λ j lt. (λ i. phys m pd (shift v j i)) ∙ h (suc j) (omega arith) ∙ shift' base j))
  where
    plain : (a : ℕ) → a + 0 ≡ a
    plain a = omega arith

    start : base ≡ phys m pd v
    start = sym (plain base) ∙ sym (h 0 (omega arith)) ∙ (λ i. phys m pd (plain v i))

    shift : (v j : ℕ) → v + 1 + j ≡ v + suc j
    shift v j = omega arith

    shift' : (v j : ℕ) → v + suc j ≡ v + 1 + j
    shift' v j = omega arith

pub view-append :
    (m : Bytes) (pd v n k : ℕ) → view m pd v n ++ view m pd (v + n) k ≡ view m pd v (n + k)
unfolding view
view-append m pd v zero k = λ i. view m pd (plain v i) (sum k i)
  where
    plain : (a : ℕ) → a + 0 ≡ a
    plain a = omega arith

    sum : (k : ℕ) → k ≡ 0 + k
    sum k = omega arith
view-append m pd v (suc n) k =
    ap (λ bs. m (phys m pd v) ∷ bs)
      ((λ i. view m pd (v + 1) n ++ view m pd (shift v n i) k) ∙ view-append m pd (v + 1) n k)
    ∙ (λ i. view m pd v (sum n k i))
  where
    shift : (v n : ℕ) → v + suc n ≡ v + 1 + n
    shift v n = omega arith

    sum : (n k : ℕ) → suc (n + k) ≡ suc n + k
    sum n k = omega arith

pub view-buf :
    (m : Bytes) (pd v : ℕ) (buf : List ℕ)
    → ((i b : ℕ) → get_elem? buf i ≡ some b → m (phys m pd (v + i)) ≡ b)
    → view m pd v (length buf) ≡ buf
unfolding view
view-buf m pd v [] h = refl
view-buf m pd v (c ∷ bs) h = (λ j.
    (ap (λ a. m (phys m pd a)) (sym (plain v)) ∙ h 0 c refl) j
    ∷ view-buf m pd (v + 1) bs (λ i b e. (λ k. m (phys m pd (shift v i k))) ∙ h (suc i) b e) j)
  where
    plain : (a : ℕ) → a + 0 ≡ a
    plain a = omega arith

    shift : (v j : ℕ) → v + 1 + j ≡ v + suc j
    shift v j = omega arith
