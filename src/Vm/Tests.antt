-- ===== src/Vm/Tests.antt =====
-- A map of two regions, and the theorem about it there.
use yetanotheros.Common.{ℕ, ◌≡◌, refl, true, false, some, List, [], ◌∷◌, arith}
use yetanotheros.Common.Outcome.{ok}
use yetanotheros.Vm.Layout.{
  VmRegion, in_v, get_region_v, get_region_p, vm_map_walk, vm_map_rev_walk,
}
use yetanotheros.Vm.Walk.{VirtualDisjoint, vm_map_rev_walk-vm_map_walk}

abbrev low : VmRegion
low = record { vbase = 0; pbase = 0; size = 4096; is_static = true; pflags = 0 }

abbrev kernel : VmRegion
kernel = record { vbase = 65536; pbase = 4096; size = 8192; is_static = true; pflags = 1 }

abbrev regions : List VmRegion
regions = low ∷ kernel ∷ []

apart : (v : ℕ) → in_v v low ≡ true → in_v v kernel ≡ false
apart v h = ground arith

regions-VirtualDisjoint : VirtualDisjoint regions
unfolding get_region_v
regions-VirtualDisjoint = ((λ v h. rw (get_region_v, apart v h) refl), ((λ v h. refl), tt))

mapped : vm_map_walk regions 4100 true ≡ ok (some 65540)
unfolding vm_map_walk get_region_p
mapped = refl

vm_map_rev_walk-vm_map_walk_example : vm_map_rev_walk regions 65540 true ≡ ok (some 4100)
vm_map_rev_walk-vm_map_walk_example =
    vm_map_rev_walk-vm_map_walk regions 4100 65540 true regions-VirtualDisjoint mapped
