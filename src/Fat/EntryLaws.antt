-- ===== src/Fat/EntryLaws.antt =====
-- `fat_read_entry` on entries that are not in use or are not part of a long name.
use yetanotheros.Common.{
  ℕ, zero, suc, ◌+◌, ◌*◌, ◌≡◌, ◌≢◌, ◌<◌, refl, ap, ◌∙◌, arith, ne→==, eq→==, List, [], ◌∷◌, ◌++◌,
  some, length, Bool, false,
}
use yetanotheros.Common.Outcome.{Outcome, ok}
use yetanotheros.Fat.Volume.{Device, FatSuper, fat_entry_size}
use yetanotheros.Fat.Read.{fat_read}
use yetanotheros.Fat.Entry.{
  byte_at, fat_unused_entry, short_name, FatResult, EntryIndex, entry_index, entry_round,
  read_entry_loop, fat_read_entry,
}

-- These entries stand in the directory from this index on.
abbrev pub Slots : FatSuper → Device → ℕ → ℕ → List (List ℕ) → Type 0
Slots s dev cluster idx [] = Unit
Slots s dev cluster idx (e ∷ es) =
    (fat_read s dev cluster (idx * fat_entry_size) fat_entry_size ≡ ok (some e))
    × Slots s dev cluster (idx + 1) es

abbrev pub Unused : List (List ℕ) → Type 0
Unused [] = Unit
Unused (e ∷ es) = (byte_at e 0 ≡ fat_unused_entry) × Unused es

-- An entry that is in use and no part of a long name.
pub record IsShort (e : List ℕ) : Type 0 where
  pub in_directory : byte_at e 0 ≢ 0
  pub in_use : byte_at e 0 ≢ fat_unused_entry
  pub no_part : byte_at e 11 ≢ 0x0f

abbrev found : ℕ → List ℕ → FatResult → FatResult
found cluster e result = record { dir_cluster = cluster; entry = e; lfn = short_name result.lfn e }

round-unused :
    (go_on : Bool → ℕ → FatResult → Outcome (FatResult × EntryIndex)) (cluster idx : ℕ)
    (result : FatResult) (u : List ℕ)
    → byte_at u 0 ≡ fat_unused_entry
    → entry_round go_on cluster idx false 0 result u ≡ go_on false 0 result
unfolding entry_round
round-unused go_on cluster idx result u unused =
    rw (ne→== (byte_at u 0) 0 (omega (arith, unused)), eq→== (byte_at u 0) fat_unused_entry unused)
      refl

round-short :
    (go_on : Bool → ℕ → FatResult → Outcome (FatResult × EntryIndex)) (cluster idx : ℕ)
    (result : FatResult) (e : List ℕ)
    → IsShort e
    → entry_round go_on cluster idx false 0 result e
      ≡ ok (found cluster e result, entry_index (idx + 1))
unfolding entry_round
round-short go_on cluster idx result e short =
    rw
      (
        ne→== (byte_at e 0) 0 short.in_directory,
        ne→== (byte_at e 0) fat_unused_entry short.in_use,
        ne→== (byte_at e 11) 0x0f short.no_part,
      )
      refl

skip :
    (fuel : ℕ) (s : FatSuper) (dev : Device) (cluster idx : ℕ) (result : FatResult)
    (us : List (List ℕ)) (e : List ℕ)
    → Slots s dev cluster idx (us ++ (e ∷ []))
    → Unused us
    → IsShort e
    → length us < fuel
    → read_entry_loop fuel s dev cluster idx false 0 result
      ≡ ok (found cluster e result, entry_index (idx + length us + 1))
unfolding read_entry_loop
skip zero s dev cluster idx result us e slots unused short enough = absurd (omega arith)
skip (suc fuel) s dev cluster idx result [] e slots unused short enough =
    rw (read_entry_loop, slots.0)
      (round-short (λ l q r. read_entry_loop fuel s dev cluster (idx + 1) l q r) cluster idx result
          e short
        ∙ ap (λ n. ok (found cluster e result, entry_index n)) (omega arith))
skip (suc fuel) s dev cluster idx result (u ∷ us) e slots unused short enough =
    rw (read_entry_loop, slots.0)
      (round-unused (λ l q r. read_entry_loop fuel s dev cluster (idx + 1) l q r) cluster idx result
          u unused.0
        ∙ skip fuel s dev cluster (idx + 1) result us e slots.1 unused.1 short (omega arith)
        ∙ ap (λ n. ok (found cluster e result, entry_index n)) (omega arith))

-- Where a directory has any number of unused entries from `idx` on and then an entry in use that is
-- not part of a long name, `fat_read_entry` (with a round for each) returns the index behind that
-- entry, with its bytes and the directory's cluster in the result, and as the name what
-- `short_name` makes of it, in which the spaces that pad the name and the extension remain.
pub fat_read_entry-short :
    (fuel : ℕ) (s : FatSuper) (dev : Device) (cluster idx : ℕ) (result : FatResult)
    (us : List (List ℕ)) (e : List ℕ)
    → Slots s dev cluster idx (us ++ (e ∷ []))
    → Unused us
    → IsShort e
    → length us < fuel
    → fat_read_entry fuel s dev cluster idx result
      ≡ ok (
        record { dir_cluster = cluster; entry = e; lfn = short_name result.lfn e },
        entry_index (idx + length us + 1),
      )
unfolding fat_read_entry
fat_read_entry-short fuel s dev cluster idx result us e slots unused short enough =
    skip fuel s dev cluster idx result us e slots unused short enough
