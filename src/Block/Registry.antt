-- ===== src/Block/Registry.antt =====
-- Adding a device, with the recursion over partitions.
use yetanotheros.Common.{
  ℕ, zero, suc, ◌+◌, ◌<◌, ◌≡◌, ◌⊎◌, inl, inr, refl, sym, ap, subst, Bool, false, Option, none, some,
  [], ◌∷◌, leb, length, get_elem?, arith, Option-cases, eq_of_some,
}
use yetanotheros.Common.Outcome.{ok}
use yetanotheros.Block.Devices.{
  BlockDev, Run, done, stopped, unfinished, then_run, Slots, mbr_table_scan, place, bdev_add,
  bdev_get,
}
use yetanotheros.Block.Scan.{vacancies, Grows, Grows-trans, Ends, EndsWith, mbr_table_scan-EndsWith}
use yetanotheros.Block.Names.{find_dev-name}

-- Where a device is placed
record Placed (dev : BlockDev) (slots s : Slots) : Type 0 where
  slot : ℕ
  vacant : get_elem? slots slot ≡ some none
  filled : get_elem? s slot ≡ some (some dev)
  grows : Grows slots s
  one_fewer : vacancies s + 1 ≡ vacancies slots

place-Placed : (dev : BlockDev) (slots s : Slots) → place dev slots ≡ some s → Placed dev slots s
unfolding place
place-Placed dev [] s e = cc
place-Placed dev (none ∷ slots) s e = subst (Placed dev (none ∷ slots)) (eq_of_some e) (record {
  slot = 0;
  vacant = refl;
  filled = refl;
  grows = record { stays = kept; fewer = omega arith };
  one_fewer = omega arith;
})
  where
    kept :
        (i : ℕ) (d : BlockDev)
        → get_elem? (none ∷ slots) i ≡ some (some d)
        → get_elem? (some dev ∷ slots) i ≡ some (some d)
    kept zero d f = cc
    kept (suc i) d f = f
place-Placed dev (some c ∷ slots) s e =
    behind (place dev slots) refl (λ t f. place-Placed dev slots t f) e
  where
    behind :
        (o : Option Slots)
        → place dev slots ≡ o
        → ((t : Slots) → place dev slots ≡ some t → Placed dev slots t)
        → (elim o [ none ↦ none | some t ↦ some (some c ∷ t) ]) ≡ some s
        → Placed dev (some c ∷ slots) s
    behind none f ih e = cc
    behind (some t) f ih e =
        let p : Placed dev slots t = ih t f in
        subst (Placed dev (some c ∷ slots)) (eq_of_some e) (record {
          slot = suc p.slot;
          vacant = p.vacant;
          filled = p.filled;
          grows = record { stays = kept t p; fewer = omega (arith, p.one_fewer) };
          one_fewer = omega (arith, p.one_fewer);
        })
      where
        kept :
            (t : Slots)
            → Placed dev slots t
            → (i : ℕ) (d : BlockDev) → get_elem? (some c ∷ slots) i ≡ some (some d)
            → get_elem? (some c ∷ t) i ≡ some (some d)
        kept t p zero d f = f
        kept t p (suc i) d f = p.grows.stays i d f

-- The first device gets a slot, and the calls for its partitions end.
bdev_add-stops :
    (fuel : ℕ) (dev : BlockDev) (slots : Slots)
    → vacancies slots < fuel
    → (bdev_add fuel dev slots ≡ stopped)
      ⊎ ((s : Slots) × (bdev_add fuel dev slots ≡ done s)
          × Grows slots s
          × ((i : ℕ) × (get_elem? slots i ≡ some none) × (get_elem? s i ≡ some (some dev))))
unfolding bdev_add
bdev_add-stops zero dev slots enough = absurd (omega arith)
bdev_add-stops (suc fuel) dev slots enough = elim (Option-cases (place dev slots)) [
  | inl full ↦ inl (rw (bdev_add, full) refl)
  | inr (s, placed) ↦
      let p : Placed dev slots s = place-Placed dev slots s placed in
      scanned s placed p (mbr_table_scan (bdev_add fuel) dev s) refl (
        mbr_table_scan-EndsWith (vacancies s) (bdev_add fuel)
          (λ d t few. as_Ends d t (bdev_add-stops fuel d t (omega (arith, p.one_fewer)))) dev s
          (omega arith))
]
  where
    as_Ends :
        (d : BlockDev) (t : Slots)
        → (bdev_add fuel d t ≡ stopped)
          ⊎ ((s : Slots) × (bdev_add fuel d t ≡ done s)
              × Grows t s
              × ((i : ℕ) × (get_elem? t i ≡ some none) × (get_elem? s i ≡ some (some d))))
        → Ends t (bdev_add fuel d t)
    as_Ends d t (inl e) = subst (Ends t) (sym e) tt
    as_Ends d t (inr (s, e, g, _)) = subst (Ends t) (sym e) g

    scanned :
        (s : Slots)
        → place dev slots ≡ some s
        → Placed dev slots s
        → (m : Run (Slots × Bool)) → mbr_table_scan (bdev_add fuel) dev s ≡ m
        → EndsWith s m
        → (bdev_add (suc fuel) dev slots ≡ stopped)
          ⊎ ((s' : Slots) × (bdev_add (suc fuel) dev slots ≡ done s')
              × Grows slots s'
              × ((i : ℕ) × (get_elem? slots i ≡ some none) × (get_elem? s' i ≡ some (some dev))))
    scanned s placed p (done r) e g = inr (
      r.0,
      rw (bdev_add, placed) (ap (λ m. then_run m (λ r. done r.0)) e),
      Grows-trans slots s r.0 p.grows g,
      (p.slot, p.vacant, g.stays p.slot dev p.filled),
    )
    scanned s placed p stopped e g =
        inl (rw (bdev_add, placed) (ap (λ m. then_run m (λ r. done r.0)) e))
    scanned s placed p unfinished e g = absurd g

-- With as much fuel as there are vacant slots and one more, adding a device ends, whatever stands
-- on its disk and on its partitions: it stops the machine, or the device is in a slot that was
-- vacant, all devices from before are where they were, and `bdev_get` finds a device of its name.
pub bdev_add-Grows :
    (fuel : ℕ) (dev : BlockDev) (slots : Slots)
    → vacancies slots < fuel
    → length dev.name < 32
    → (bdev_add fuel dev slots ≡ stopped)
      ⊎ ((s : Slots) × (bdev_add fuel dev slots ≡ done s)
          × Grows slots s
          × ((i : ℕ) × (get_elem? slots i ≡ some none) × (get_elem? s i ≡ some (some dev)))
          × ((d : BlockDev) × (bdev_get dev.name s ≡ ok (some d)) × (d.name ≡ dev.name)))
unfolding bdev_get
bdev_add-Grows fuel dev slots enough short = found (bdev_add-stops fuel dev slots enough)
  where
    get_short :
        (s : Slots) (i : ℕ)
        → get_elem? s i ≡ some (some dev)
        → (d : BlockDev) × (bdev_get dev.name s ≡ ok (some d)) × (d.name ≡ dev.name)
    get_short s i e =
        let (d, finds, named) = find_dev-name s i dev e in
        (d, rw (bdev_get, too_long) (ap ok finds), named)
      where
        too_long : leb 32 (length dev.name) ≡ false
        too_long = ground arith

    found :
        (bdev_add fuel dev slots ≡ stopped)
          ⊎ ((s : Slots) × (bdev_add fuel dev slots ≡ done s)
              × Grows slots s
              × ((i : ℕ) × (get_elem? slots i ≡ some none) × (get_elem? s i ≡ some (some dev))))
        → (bdev_add fuel dev slots ≡ stopped)
          ⊎ ((s : Slots) × (bdev_add fuel dev slots ≡ done s)
              × Grows slots s
              × ((i : ℕ) × (get_elem? slots i ≡ some none) × (get_elem? s i ≡ some (some dev)))
              × ((d : BlockDev) × (bdev_get dev.name s ≡ ok (some d)) × (d.name ≡ dev.name)))
    found (inl e) = inl e
    found (inr (s, e, g, (i, vacant, filled))) =
        inr (s, e, g, (i, vacant, filled), get_short s i filled)
