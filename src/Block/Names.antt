-- ===== src/Block/Names.antt =====
-- Looking a device up by its name.
use yetanotheros.Common.{
  ℕ, zero, suc, ◌≡◌, inl, inr, refl, subst, Bool, true, false, none, some, List, [], ◌∷◌, ◌==◌,
  ◌&&◌, if◌then◌else◌, length, get_elem?, Bool-cases, eq→==, ==→eq, eq_of_some,
}
use yetanotheros.Block.Devices.{BlockDev, Slots, same_name, find_dev}

same_name_refl : (xs : List ℕ) → same_name xs xs ≡ true
same_name_refl [] = refl
same_name_refl (x ∷ xs) = rw (eq→== x x refl) (same_name_refl xs)

same_name-eq : (xs ys : List ℕ) → same_name xs ys ≡ true → xs ≡ ys
same_name-eq [] [] e = refl
same_name-eq [] (y ∷ ys) e = cc
same_name-eq (x ∷ xs) [] e = cc
same_name-eq (x ∷ xs) (y ∷ ys) e = elim (Bool-cases (x == y)) [
  | inl same ↦ both (==→eq x y same) (same_name-eq xs ys (rw same at e))
  | inr other ↦ cc (rw other at e)
]
  where
    both : {a b : ℕ} {us ws : List ℕ} → a ≡ b → us ≡ ws → a ∷ us ≡ b ∷ ws
    both p q = λ i. p i ∷ q i

-- A device in the registry, or one before it with the same name, is found by its name.
pub find_dev-name :
    (slots : Slots) (i : ℕ) (dev : BlockDev)
    → get_elem? slots i ≡ some (some dev)
    → (d : BlockDev) × (find_dev dev.name slots ≡ some d) × (d.name ≡ dev.name)
unfolding find_dev
find_dev-name [] i dev e = cc
find_dev-name (none ∷ slots) zero dev e = cc
find_dev-name (none ∷ slots) (suc i) dev e = find_dev-name slots i dev e
find_dev-name (some c ∷ slots) i dev e =
    tested (length dev.name == length c.name && same_name c.name dev.name) refl i e
      (λ k f. find_dev-name slots k dev f)
  where
    accepted :
        (c : BlockDev)
        → (length dev.name == length c.name && same_name c.name dev.name) ≡ true
        → c.name ≡ dev.name
    accepted c t =
        same_name-eq c.name dev.name
          (second (length dev.name == length c.name) (same_name c.name dev.name) t)
      where
        second : (a b : Bool) → (a && b) ≡ true → b ≡ true
        second true b t = t
        second false b t = cc

    itself : (length dev.name == length dev.name && same_name dev.name dev.name) ≡ true
    itself = rw (eq→== (length dev.name) (length dev.name) refl) (same_name_refl dev.name)

    tested :
        (b : Bool)
        → (length dev.name == length c.name && same_name c.name dev.name) ≡ b
        → (i : ℕ) → get_elem? (some c ∷ slots) i ≡ some (some dev)
        → ((k : ℕ)
            → get_elem? slots k ≡ some (some dev)
            → (d : BlockDev) × (find_dev dev.name slots ≡ some d) × (d.name ≡ dev.name))
        → (d : BlockDev) × ((if b then some c else find_dev dev.name slots) ≡ some d)
          × (d.name ≡ dev.name)
    tested true t i e ih = (c, refl, accepted c t)
    tested false t (suc i) e ih = ih i e
    tested false t zero e ih =
        let same : c ≡ dev = eq_of_some (eq_of_some e) in
        let differs : (length dev.name == length dev.name && same_name dev.name dev.name) ≡ false =
          subst (λ d. (length dev.name == length d.name && same_name d.name dev.name) ≡ false) same
            t in
        cc itself
