-- ===== src/Fat/TableLaws.antt =====
-- `fat_read_fat` finds the entry of a cluster in the table that the device stores.
use yetanotheros.Common.{
  ℕ, ◌+◌, ◌*◌, ◌/◌, ◌%◌, ◌^◌, ◌≡◌, ◌<◌, ◌≤◌, refl, sym, subst, ap, ◌∙◌, arith,
}
use native.Mathlib.Nat.{
  div-add-mod', mod-lt, add-mul-mod_self_right, add-mul-div_right, div-eq_of_lt, mod-eq_of_lt,
}
use yetanotheros.Fat.Volume.{Device, fat32, FatSuper, u32}
use yetanotheros.Fat.Table.{
  fat_ok, fat_last_cluster, fat_bad_cluster, read32, link_status, fat_offset, fat_sector,
  ent_offset, decode_entry, fat_read_fat_of, fat_read_fat,
}

-- The device shows these bytes from the table's first sector on, sector by sector.
abbrev pub Shows : FatSuper → Device → (ℕ → ℕ) → Type 0
Shows s dev image =
    (p : ℕ)
    → dev (s.first_fat_sector + p / s.bs.bytes_per_sector) (p % s.bs.bytes_per_sector) ≡ image p

-- The bytes are those of a table of 32-bit numbers, the lowest byte of each first.
abbrev pub Stores : (ℕ → ℕ) → (ℕ → ℕ) → Type 0
Stores image table =
    (c : ℕ)
    → (table c < 2 ^ 32)
      × (image (4 * c) ≡ table c % 256)
      × (image (4 * c + 1) ≡ table c / 256 % 256)
      × (image (4 * c + 2) ≡ table c / 65536 % 256)
      × (image (4 * c + 3) ≡ table c / 16777216)

-- Four bytes from a multiple of four on stand in one sector.
module _ (k c i : ℕ) (pos : 0 < k) (le : i < 4) where
  in_sector : 4 * c % (4 * k) + i < 4 * k
  in_sector = grind (arith, div-add-mod' (4 * c) (4 * k), mod-lt (4 * c) {m = 4 * k} (omega arith))

  split : 4 * c + i ≡ 4 * c % (4 * k) + i + 4 * c / (4 * k) * (4 * k)
  split = omega (arith, div-add-mod' (4 * c) (4 * k))

  same_sector : (4 * c + i) / (4 * k) ≡ 4 * c / (4 * k)
  same_sector =
      ap (λ n. n / (4 * k)) split
      ∙ add-mul-div_right (4 * c % (4 * k) + i) (4 * c / (4 * k)) (omega arith)
      ∙ omega (arith, div-eq_of_lt in_sector)

  next_offset : (4 * c + i) % (4 * k) ≡ 4 * c % (4 * k) + i
  next_offset =
      ap (λ n. n % (4 * k)) split
      ∙ add-mul-mod_self_right (4 * c % (4 * k) + i) (4 * c / (4 * k)) (4 * k)
      ∙ mod-eq_of_lt in_sector

module _ (s : FatSuper) (dev : Device) (image table : ℕ → ℕ) (k : ℕ)
    (sector : s.bs.bytes_per_sector ≡ 4 * k) (pos : 0 < k) (shows : Shows s dev image)
    (stores : Stores image table) where
  -- A byte of an entry, where `fat_read_fat` reads it
  entry_byte :
      (c i : ℕ)
      → i < 4
      → dev (s.first_fat_sector + 4 * c / (4 * k)) (4 * c % (4 * k) + i) ≡ image (4 * c + i)
  entry_byte c i le =
      ap (λ q. dev (s.first_fat_sector + q) (4 * c % (4 * k) + i)) (sym (same_sector k c i pos le))
      ∙ ap (λ r. dev (s.first_fat_sector + (4 * c + i) / (4 * k)) r)
          (sym (next_offset k c i pos le))
      ∙ subst
          (λ b. dev (s.first_fat_sector + (4 * c + i) / b) ((4 * c + i) % b) ≡ image (4 * c + i))
          sector (shows (4 * c + i))

  entry_value :
      (c : ℕ) → read32 dev (s.first_fat_sector + 4 * c / (4 * k)) (4 * c % (4 * k)) ≡ table c
  entry_value c =
      let b0 : dev (s.first_fat_sector + 4 * c / (4 * k)) (4 * c % (4 * k)) ≡ image (4 * c) =
        subst (λ n. dev (s.first_fat_sector + 4 * c / (4 * k)) n ≡ image (4 * c)) (omega arith)
          (entry_byte c 0 (omega arith) ∙ ap image (omega arith)) in
      let b1 = entry_byte c 1 (omega arith) in
      let b2 = entry_byte c 2 (omega arith) in
      let b3 = entry_byte c 3 (omega arith) in omega (arith, b0, b1, b2, b3, stores c)

  -- The two addresses, with their wrap-around
  address :
      (c : ℕ)
      → 4 * c < 2 ^ 32
      → s.first_fat_sector + 4 * c / (4 * k) < 2 ^ 32
      → read32 dev (fat_sector s (u32 (c * 4))) (ent_offset s (u32 (c * 4))) ≡ table c
  address c small fits =
      subst
        (λ b. read32 dev (u32 (s.first_fat_sector + u32 (c * 4) / b)) (u32 (c * 4) % b) ≡ table c)
        (sym sector)
        (subst (λ o. read32 dev (u32 (s.first_fat_sector + o / (4 * k))) (o % (4 * k)) ≡ table c)
          (omega arith)
          (subst (λ a. read32 dev a (4 * c % (4 * k)) ≡ table c) (omega arith) (entry_value c)))

link_status-cases :
    (v : ℕ)
    → (0x0fff_fff8 ≤ v → link_status 0x0fff_fff8 v ≡ fat_last_cluster)
      × (v ≡ 0x0fff_fff7 → link_status 0x0fff_fff8 v ≡ fat_bad_cluster)
      × (v < 0x0fff_fff7 → link_status 0x0fff_fff8 v ≡ fat_ok)
unfolding link_status
link_status-cases v = (λ h. ground arith, λ h. ground arith, λ h. ground arith)

fat_read_fat_lem :
    (s : FatSuper) (dev : Device) (n c : ℕ)
    → s.type ≡ fat32
    → fat_read_fat s dev n c ≡ (
      link_status 0x0fff_fff8
          (read32 dev (fat_sector s (u32 (c * 4))) (ent_offset s (u32 (c * 4))) % 2 ^ 28),
      read32 dev (fat_sector s (u32 (c * 4))) (ent_offset s (u32 (c * 4))) % 2 ^ 28,
    )
unfolding fat_read_fat fat_read_fat_of fat_offset decode_entry
fat_read_fat_lem s dev n c type =
    subst (λ t. fat_read_fat_of t s dev n c ≡ fat_read_fat_of fat32 s dev n c) (sym type) refl

-- On a FAT32 volume whose device stores a table of 32-bit entries from the first sector of the FAT
-- on, the sector size being a multiple of four and the addresses below 2 ^ 32, `fat_read_fat`
-- yields the low 28 bits of the cluster's entry, and its status tells the end of the chain, a bad
-- cluster and a link apart.
pub fat_read_fat-fat32 :
    (s : FatSuper) (dev : Device) (image table : ℕ → ℕ) (k n c : ℕ)
    → s.type ≡ fat32
    → s.bs.bytes_per_sector ≡ 4 * k
    → 0 < k
    → Shows s dev image
    → Stores image table
    → 4 * c < 2 ^ 32
    → s.first_fat_sector + 4 * c / (4 * k) < 2 ^ 32
    → ((fat_read_fat s dev n c).1 ≡ table c % 2 ^ 28)
      × (0x0fff_fff8 ≤ table c % 2 ^ 28 → (fat_read_fat s dev n c).0 ≡ fat_last_cluster)
      × (table c % 2 ^ 28 ≡ 0x0fff_fff7 → (fat_read_fat s dev n c).0 ≡ fat_bad_cluster)
      × (table c % 2 ^ 28 < 0x0fff_fff7 → (fat_read_fat s dev n c).0 ≡ fat_ok)
fat_read_fat-fat32 s dev image table k n c type sector pos shows stores small fits =
    subst
      (λ r.
        (r.1 ≡ table c % 2 ^ 28)
        × (0x0fff_fff8 ≤ table c % 2 ^ 28 → r.0 ≡ fat_last_cluster)
        × (table c % 2 ^ 28 ≡ 0x0fff_fff7 → r.0 ≡ fat_bad_cluster)
        × (table c % 2 ^ 28 < 0x0fff_fff7 → r.0 ≡ fat_ok))
      (sym (
        fat_read_fat_lem s dev n c type
        ∙ ap (λ v. (link_status 0x0fff_fff8 (v % 2 ^ 28), v % 2 ^ 28))
            (address s dev image table k sector pos shows stores c small fits)))
      (let (last, bad, more) = link_status-cases (table c % 2 ^ 28) in (refl, last, bad, more))
