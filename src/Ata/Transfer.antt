-- ===== src/Ata/Transfer.antt =====
-- The transfers of `gen_ata_bd_read` and `gen_ata_bd_write` keep the cache sound.
use yetanotheros.Common.{
  ℕ, ◌+◌, ◌^◌, ◌<◌, ◌≤◌, ◌≡◌, ◌≢◌, ◌⊎◌, inl, inr, refl, true, not, ◌||◌, Option, some, none, List,
  arith, length, Bool-cases, ltb, sym, ◌∙◌, take, drop, length-append, length-take, length-drop,
  subst, ◌++◌,
}
use yetanotheros.Common.Outcome.{ok, ok-injective, with_bind, kassert}
use yetanotheros.Common.Store.{write_self, write_ne}
use yetanotheros.Scheduler.Invariant.{count}
use yetanotheros.Ata.Cache.{
  Block, BlockCache, Drive, put_block, ide_sector_size, AtaResult, no_error, bad_status, filled,
  ata_pio_read, gen_ata_read_block, fill_block, overwrite, store_block,
}
use yetanotheros.Ata.Sound.{IsSound, IsSound-put, SameSector, held-first}

-- What a drive answers, if not an error, is a sector.
abbrev pub IsAnswer : Option (List ℕ) → Type 0
IsAnswer none = Unit {0}
IsAnswer (some sector) = length sector ≡ ide_sector_size

answered-length :
    (answer : Option (List ℕ)) (dest : List ℕ) (r : AtaResult × List ℕ)
    → IsAnswer answer
    → length dest ≡ ide_sector_size
    → (elim answer [ none ↦ ok (bad_status, dest) | some sector ↦ ok (no_error, sector) ]) ≡ ok r
    → length r.1 ≡ ide_sector_size
answered-length none dest r fits whole e =
    subst (λ (x : AtaResult × List ℕ). length x.1 ≡ ide_sector_size) (ok-injective e) whole
answered-length (some sector) dest r fits whole e =
    subst (λ (x : AtaResult × List ℕ). length x.1 ≡ ide_sector_size) (ok-injective e) fits

ata_pio_read-length :
    (dp : Drive) (lba : ℕ) (answer : Option (List ℕ)) (dest : List ℕ) (r : AtaResult × List ℕ)
    → IsAnswer answer
    → length dest ≡ ide_sector_size
    → ata_pio_read dp lba answer dest ≡ ok r
    → length r.1 ≡ ide_sector_size
unfolding ata_pio_read
ata_pio_read-length dp lba answer dest r fits whole e =
    elim (Bool-cases (not dp.present || not dp.lba || dp.atapi)) [
      | inl y ↦
          subst (λ (x : AtaResult × List ℕ). length x.1 ≡ ide_sector_size)
            (ok-injective (rw y at e)) whole
      | inr n ↦
          with_bind (kassert (ltb (lba + 1) (2 ^ 28) || dp.lba48)) _ (rw n at e)
            λ a _ e1. answered-length answer dest r fits whole e1
    ]

-- A block that was valid is as before; another one is valid now, with as many bytes.
abbrev pub Fills : BlockCache → ℕ → BlockCache → Type 0
Fills c i c1 =
    (((c.blocks i).is_valid ≡ true) × (c1 ≡ c))
    ⊎ ((bytes : List ℕ) × (length bytes ≡ ide_sector_size)
        × (c1 ≡ put_block c i (filled (c.blocks i) bytes)))

pub fill_block-Fills :
    (dp : Drive) (i : ℕ) (answer : Option (List ℕ)) (c c1 : BlockCache)
    → IsAnswer answer
    → length (c.blocks i).bytes ≡ ide_sector_size
    → fill_block dp i answer c ≡ ok c1
    → Fills c i c1
unfolding fill_block gen_ata_read_block
fill_block-Fills dp i answer c c1 fits whole e = elim (Bool-cases (c.blocks i).is_valid) [
  | inl y ↦ inl (y, sym (ok-injective (rw y at e)))
  | inr n ↦
      with_bind (gen_ata_read_block dp (c.blocks i).num answer (c.blocks i).bytes) _ (rw n at e)
        λ bytes read e1.
          with_bind (ata_pio_read dp (c.blocks i).num answer (c.blocks i).bytes) _ read λ r done e2.
            inr (
              bytes,
              subst (λ b. length b ≡ ide_sector_size) (ok-injective e2)
                  (ata_pio_read-length dp (c.blocks i).num answer (c.blocks i).bytes r fits whole
                    done),
              sym (ok-injective e1),
            )
]

pub length-overwrite :
    (sector src : List ℕ) (off : ℕ)
    → off + length src ≤ length sector
    → length (overwrite sector off src) ≡ length sector
unfolding overwrite
length-overwrite sector src off inside =
    length-append (take off sector ++ src) (drop (off + length src) sector)
    ∙ omega (
      arith,
      length-append (take off sector) src,
      length-take off sector,
      length-drop (off + length src) sector,
    )

module _ (c : BlockCache) (held : List ℕ) (i : ℕ) (v : IsSound c held)
    (used : count i held ≢ 0) where
  -- A change of a block in use that keeps its place, and of who holds it.
  pub IsSound-same :
      (held' : List ℕ) (b : Block)
      → SameSector b (c.blocks i)
      → length b.bytes ≡ ide_sector_size
      → b.ref ≡ count i held'
      → ((j : ℕ) → j ≢ i → count j held' ≡ count j held)
      → length held' < 2 ^ 32
      → IsSound (put_block c i b) held'
  IsSound-same held' b same =
      IsSound-put c held held' i b v (v.inside i used)
        (λ k lt eq. held-first c held i v used k lt (ground arith))
        (λ j lt bound eq. v.first i j lt bound (ground arith))

  pub Fills-IsSound : (c1 : BlockCache) → Fills c i c1 → IsSound c1 held
  Fills-IsSound c1 (inl (valid, same)) = subst (λ x. IsSound x held) (sym same) v
  Fills-IsSound c1 (inr (bytes, whole, same)) =
      subst (λ x. IsSound x held) (sym same)
        (IsSound-same held (filled (c.blocks i) bytes) (refl, refl) whole (v.counted i)
          (λ j ne. refl) v.few)

  pub store_block-IsSound :
      (off : ℕ) (src : List ℕ)
      → off + length src ≤ ide_sector_size
      → IsSound (store_block c i off src) held
  unfolding store_block
  store_block-IsSound off src inside =
      IsSound-same held (record (c.blocks i) { bytes = overwrite (c.blocks i).bytes off src })
        (refl, refl)
        (length-overwrite (c.blocks i).bytes src off (rw (v.sized i) inside) ∙ v.sized i)
        (v.counted i) (λ j ne. refl) v.few

-- After a block was filled, its drive and its mutex are as before, and it is valid; other blocks
-- have not changed.
abbrev pub IsFilled : BlockCache → ℕ → BlockCache → Type 0
IsFilled c i c1 =
    ((c1.blocks i).mutex ≡ (c.blocks i).mutex)
    × ((c1.blocks i).drive ≡ (c.blocks i).drive)
    × ((c1.blocks i).is_valid ≡ true)
    × ((j : ℕ) → j ≢ i → c1.blocks j ≡ c.blocks j)

pub Fills-IsFilled : (c : BlockCache) (i : ℕ) (c1 : BlockCache) → Fills c i c1 → IsFilled c i c1
Fills-IsFilled c i c1 (inl (valid, same)) =
    subst (IsFilled c i) (sym same) (refl, refl, valid, λ j ne. refl)
Fills-IsFilled c i c1 (inr (bytes, whole, same)) = subst (IsFilled c i) (sym same) (
  rw (write_self c.blocks i (filled (c.blocks i) bytes)) refl,
  rw (write_self c.blocks i (filled (c.blocks i) bytes)) refl,
  rw (write_self c.blocks i (filled (c.blocks i) bytes)) refl,
  λ j ne. write_ne c.blocks i (filled (c.blocks i) bytes) j ne,
)

pub Fills-sized :
    (c : BlockCache) (i : ℕ) (c1 : BlockCache)
    → Fills c i c1
    → length (c.blocks i).bytes ≡ ide_sector_size
    → length (c1.blocks i).bytes ≡ ide_sector_size
Fills-sized c i c1 (inl (valid, same)) whole =
    subst (λ x. length (x.blocks i).bytes ≡ ide_sector_size) (sym same) whole
Fills-sized c i c1 (inr (bytes, full, same)) whole =
    subst (λ x. length (x.blocks i).bytes ≡ ide_sector_size) (sym same)
      (rw (write_self c.blocks i (filled (c.blocks i) bytes)) full)
