-- ===== src/Fat/ReadLaws.antt =====
-- `fat_read` within the first sector of a cluster, as directory entries are read.
use yetanotheros.Common.{
  ℕ, zero, suc, ◌+◌, ◌/◌, ◌%◌, ◌^◌, ◌≡◌, ◌<◌, ◌≤◌, refl, subst, ap, arith, le→ltb, ne→==, List, [],
  ◌∷◌, ◌++◌, some,
}
use yetanotheros.Common.Outcome.{ok}
use yetanotheros.Fat.Volume.{Device, FatSuper, fat_first_sector_of_cluster, u32}
use yetanotheros.Fat.Read.{read_bytes, follow, Progress, read_blocks, read_clusters, fat_read}

append_nil : (xs : List ℕ) → xs ++ [] ≡ xs
append_nil [] = refl
append_nil (x ∷ xs) = ap (λ ys. x ∷ ys) (append_nil xs)

abbrev done : List ℕ → Progress
done buf = record { left = 0; offset = 0; buf = buf }

-- The rounds that the inner loop makes too many read nothing.
read_blocks-done :
    (rounds : ℕ) (s : FatSuper) (dev : Device) (sector : ℕ) (buf : List ℕ)
    → read_blocks rounds s dev sector (done buf) ≡ ok (done buf)
unfolding read_blocks read_bytes
read_blocks-done zero s dev sector buf = refl
read_blocks-done (suc rounds) s dev sector buf =
    rw (le→ltb s.bs.bytes_per_sector 0 (omega arith), append_nil buf, read_blocks)
      (read_blocks-done rounds s dev (sector + 1) buf)

read_blocks-first :
    (rounds : ℕ) (s : FatSuper) (dev : Device) (sector num off : ℕ)
    → off + num ≤ s.bs.bytes_per_sector
    → off + num < 2 ^ 32
    → read_blocks (suc rounds) s dev sector (record { left = num; offset = off; buf = [] })
      ≡ ok (done (read_bytes dev sector off num))
unfolding read_blocks
read_blocks-first rounds s dev sector num off fits small =
    rw (le→ltb s.bs.bytes_per_sector (u32 (num + off)) (omega arith)) (
      subst
        (λ n.
          read_blocks rounds s dev (sector + 1)
            (record { left = n; offset = 0; buf = read_bytes dev sector off num })
          ≡ ok (done (read_bytes dev sector off num)))
        (omega arith) (read_blocks-done rounds s dev (sector + 1) (read_bytes dev sector off num)))

-- A read that stays within the first sector of the cluster that its offset is in returns exactly
-- the bytes that the device has there, whatever the number of sectors in a cluster.
pub fat_read-first_sector :
    (s : FatSuper) (dev : Device) (first_cluster cl off num : ℕ)
    → 0 < num
    → follow s dev (off / s.bytes_per_cluster) first_cluster ≡ some cl
    → off % s.bytes_per_cluster + num ≤ s.bs.bytes_per_sector
    → off % s.bytes_per_cluster + num < 2 ^ 32
    → fat_read s dev first_cluster off num
      ≡ ok
          (some (read_bytes dev (fat_first_sector_of_cluster s cl) (off % s.bytes_per_cluster) num))
unfolding fat_read read_clusters
fat_read-first_sector s dev first_cluster cl off num pos found fits small =
    rw
      (
        fat_read,
        ne→== num 0 (omega arith),
        found,
        read_clusters,
        read_blocks-first _ s dev (fat_first_sector_of_cluster s cl) num (off % s.bytes_per_cluster)
            fits small,
      )
      refl
