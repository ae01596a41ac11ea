-- ===== src/Vm/Layout.antt =====
-- kernel/arch/i386/memlayout.c. Regions end below the end of the address space.
use yetanotheros.Common.{
  ℕ, ◌+◌, ◌-◌, Bool, true, false, ◌&&◌, Option, none, some, List, [], ◌∷◌, if◌then◌else◌, ltb, leb,
}
use yetanotheros.Common.Outcome.{Outcome, ok, panic}

-- `struct vm_region`; `is_static` is the one bit of its flags
pub record VmRegion : Type 0 where
  pub vbase : ℕ
  pub pbase : ℕ
  pub size : ℕ
  pub is_static : Bool
  pub pflags : ℕ

abbrev pub in_v : ℕ → VmRegion → Bool
in_v v r = leb r.vbase v && ltb v (r.vbase + r.size)

abbrev pub in_p : ℕ → VmRegion → Bool
in_p p r = leb r.pbase p && ltb p (r.pbase + r.size)

unfoldable pub get_region_v : ℕ → List VmRegion → Option VmRegion
get_region_v v [] = none
get_region_v v (r ∷ rs) = if in_v v r then some r else get_region_v v rs

unfoldable pub get_region_p : ℕ → List VmRegion → Option VmRegion
get_region_p p [] = none
get_region_p p (r ∷ rs) = if in_p p r then some r else get_region_p p rs

-- NULL, or a stop of the machine, if the caller asks for it
abbrev pub unresolved : Bool → Outcome (Option ℕ)
unresolved true = panic
unresolved false = ok none

-- `vm_map_walk`
unfoldable pub vm_map_walk : List VmRegion → ℕ → Bool → Outcome (Option ℕ)
unfolding get_region_p
vm_map_walk vm_map p panics = elim (get_region_p p vm_map) [
  | some r ↦ ok (some (r.vbase + (p - r.pbase)))
  | none ↦ unresolved panics
]

-- `vm_map_rev_walk`
unfoldable pub vm_map_rev_walk : List VmRegion → ℕ → Bool → Outcome (Option ℕ)
unfolding get_region_v
vm_map_rev_walk vm_map v panics = elim (get_region_v v vm_map) [
  | some r ↦ ok (some (r.pbase + (v - r.vbase)))
  | none ↦ unresolved panics
]

-- `vm_exists`
unfoldable pub vm_exists : List VmRegion → ℕ → Bool
unfolding get_region_v
vm_exists vm_map v = elim (get_region_v v vm_map) [ none ↦ false | some r ↦ true ]

-- `vm_is_static`
unfoldable pub vm_is_static : List VmRegion → ℕ → Bool
unfolding get_region_v
vm_is_static vm_map v = elim (get_region_v v vm_map) [ none ↦ false | some r ↦ r.is_static ]

-- `vm_is_static_p`
unfoldable pub vm_is_static_p : List VmRegion → ℕ → Bool
unfolding get_region_p
vm_is_static_p vm_map p = elim (get_region_p p vm_map) [ none ↦ false | some r ↦ r.is_static ]

-- `vm_get_pflags`
unfoldable pub vm_get_pflags : List VmRegion → ℕ → ℕ
unfolding get_region_v
vm_get_pflags vm_map v = elim (get_region_v v vm_map) [ none ↦ 0 | some r ↦ r.pflags ]
