-- ===== src/Vm/Walk.antt =====
-- From a physical address to a virtual one and back, through the map of regions.
use yetanotheros.Common.{
  ℕ, ◌+◌, ◌-◌, ◌≡◌, inl, inr, refl, ap, subst, Bool, true, false, none, some, List, [], ◌∷◌, arith,
  Bool-cases, Option-cases, eq_of_some,
}
use yetanotheros.Common.Outcome.{ok, ok-injective}
use yetanotheros.Vm.Layout.{
  VmRegion, in_v, in_p, get_region_v, get_region_p, unresolved, vm_map_walk, vm_map_rev_walk,
}

-- No address is in a region and in a later one.
abbrev pub VirtualDisjoint : List VmRegion → Type 0
VirtualDisjoint [] = Unit {0}
VirtualDisjoint (r ∷ rs) =
    ((v : ℕ) → in_v v r ≡ true → get_region_v v rs ≡ none) × VirtualDisjoint rs

get_region_p-in_p :
    (p : ℕ) (rs : List VmRegion) {r : VmRegion} → get_region_p p rs ≡ some r → in_p p r ≡ true
unfolding get_region_p
get_region_p-in_p p [] e = cc
get_region_p-in_p p (s ∷ rs) e = elim (Bool-cases (in_p p s)) [
  | inl y ↦ subst (λ x. in_p p x ≡ true) (eq_of_some (rw (y, get_region_p) at e)) y
  | inr n ↦ get_region_p-in_p p rs (rw (n, get_region_p) at e)
]

shifted : (p : ℕ) (r : VmRegion) → in_p p r ≡ true → in_v (r.vbase + (p - r.pbase)) r ≡ true
shifted p r h = ground arith

-- The region of an address is that of its image.
get_region_v-image :
    (p : ℕ) (rs : List VmRegion) {r : VmRegion}
    → VirtualDisjoint rs
    → get_region_p p rs ≡ some r
    → get_region_v (r.vbase + (p - r.pbase)) rs ≡ some r
unfolding get_region_v get_region_p
get_region_v-image p [] d e = cc
get_region_v-image p (s ∷ rs) {r} (here, rest) e = elim (Bool-cases (in_p p s)) [
  | inl y ↦
      subst (λ x. get_region_v (x.vbase + (p - x.pbase)) (s ∷ rs) ≡ some x)
        (eq_of_some (rw (y, get_region_p) at e)) (rw (get_region_v, shifted p s y) refl)
  | inr n ↦
      let found = get_region_v-image p rs rest (rw (n, get_region_p) at e) in
      elim (Bool-cases (in_v (r.vbase + (p - r.pbase)) s)) [
        | inl y ↦ cc (here (r.vbase + (p - r.pbase)) y)
        | inr z ↦ rw (get_region_v, z) found
      ]
]

-- If a physical address is mapped by the regions, walking back from its virtual address gives it
-- again, and neither walk stops the machine. No virtual address is in two regions.
pub vm_map_rev_walk-vm_map_walk :
    (vm_map : List VmRegion) (p v : ℕ) (panics : Bool)
    → VirtualDisjoint vm_map
    → vm_map_walk vm_map p panics ≡ ok (some v)
    → vm_map_rev_walk vm_map v panics ≡ ok (some p)
unfolding vm_map_walk vm_map_rev_walk
vm_map_rev_walk-vm_map_walk vm_map p v panics d e = elim (Option-cases (get_region_p p vm_map)) [
  | inl z ↦ absurd (no_address panics (rw (z, vm_map_walk) at e))
  | inr (r, found) ↦
      let at : r.vbase + (p - r.pbase) ≡ v =
        eq_of_some (ok-injective (rw (found, vm_map_walk) at e)) in
      subst (λ x. vm_map_rev_walk vm_map x panics ≡ ok (some p)) at
        (rw (vm_map_rev_walk, get_region_v-image p vm_map d found)
          (ap (λ x. ok (some x)) (back r (get_region_p-in_p p vm_map found))))
]
  where
    no_address : (panics : Bool) → ¬ (unresolved panics ≡ ok (some v))
    no_address true h = cc
    no_address false h = cc

    back : (r : VmRegion) → in_p p r ≡ true → r.pbase + (r.vbase + (p - r.pbase) - r.vbase) ≡ p
    back r h = ground arith
