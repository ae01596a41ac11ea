-- ===== src/Fat/Read.antt =====
-- kernel/kernel/fs/fat_core.c: `fat_read`.
use yetanotheros.Common.{
  ℕ, zero, suc, ◌+◌, ◌-◌, ◌/◌, ◌%◌, true, false, Option, none, some, List, [], ◌∷◌, ◌++◌, ◌==◌,
  if◌then◌else◌, ltb,
}
use yetanotheros.Common.Outcome.{Outcome, ok, panic, ◌>>=◌}
use yetanotheros.Fat.Volume.{Device, FatSuper, fat_first_sector_of_cluster, u32}
use yetanotheros.Fat.Table.{FatStatus, fat_read_fat}

-- `super->bdev->read`: so many bytes of a sector, from an offset on.
unfoldable pub read_bytes : Device → ℕ → ℕ → ℕ → List ℕ
read_bytes dev sector off zero = []
read_bytes dev sector off (suc len) = dev sector off ∷ read_bytes dev sector (off + 1) len

abbrev pub link : FatStatus × ℕ → Option ℕ
link (FatStatus.fat_ok, next) = some next
link (_, next) = none

-- The first loop: along the chain to the cluster that the offset is in.
unfoldable pub follow : FatSuper → Device → ℕ → ℕ → Option ℕ
follow s dev zero cl = some cl
follow s dev (suc cl_i) cl = elim (link (fat_read_fat s dev 0 cl)) [
  | none ↦ none
  | some next ↦ follow s dev cl_i next
]

-- What `fat_read` keeps between blocks: the bytes left to read, the offset that is still to be
-- applied, and the bytes in `buf`.
pub record Progress : Type 0 where
  pub left : ℕ
  pub offset : ℕ
  pub buf : List ℕ

-- The inner loop over the blocks of a cluster. An offset past the first block makes the unsigned
-- portion wrap around to nearly 2 ^ 32 bytes, a copy past every buffer: the model stops there.
unfoldable pub read_blocks : ℕ → FatSuper → Device → ℕ → Progress → Outcome Progress
read_blocks zero s dev sector p = ok p
read_blocks (suc rounds) s dev sector p =
    let bps = s.bs.bytes_per_sector in
    let portion : ℕ = if ltb bps (u32 (p.left + p.offset)) then bps - p.offset else p.left in
    let rest = read_blocks rounds s dev (sector + 1) (record {
      left = p.left - portion;
      offset = 0;
      buf = p.buf ++ read_bytes dev sector p.offset portion;
    }) in
    if ltb bps (u32 (p.left + p.offset)) then (if ltb bps p.offset then panic else rest) else rest

-- How many blocks the inner loop goes over: the code divides by the sectors of a cluster.
abbrev pub rounds_of : FatSuper → Progress → ℕ
rounds_of s p =
    let cl_portion : ℕ =
      if ltb s.bytes_per_cluster (u32 (p.left + p.offset))
      then s.bytes_per_cluster - p.offset
      else p.left in
    suc (cl_portion / s.bs.sectors_per_cluster)

-- The second loop: `none` is the return of 0 where the chain ends too early.
unfoldable pub read_clusters : ℕ → FatSuper → Device → ℕ → Progress → Outcome (Option (List ℕ))
unfolding read_blocks
read_clusters zero s dev cl p = panic
read_clusters (suc fuel) s dev cl p =
    read_blocks (rounds_of s p) s dev (fat_first_sector_of_cluster s cl) p >>= λ q.
    elim (q.left == 0) [
      | true ↦ ok (some q.buf)
      | false ↦ elim (link (fat_read_fat s dev 0 cl)) [
        | none ↦ ok none
        | some next ↦ read_clusters fuel s dev next q
      ]
    ]

-- `fat_read`, with a round for each byte and one more: the bytes in the buffer
-- (as many as the function returns), or `none` for the result 0.
unfoldable pub fat_read : FatSuper → Device → ℕ → ℕ → ℕ → Outcome (Option (List ℕ))
unfolding follow read_clusters
fat_read s dev first_cluster off num = elim (num == 0) [
  | true ↦ ok none
  | false ↦ elim (follow s dev (off / s.bytes_per_cluster) first_cluster) [
    | none ↦ ok none
    | some cl ↦
        read_clusters (suc num) s dev cl
          (record { left = num; offset = off % s.bytes_per_cluster; buf = [] })
  ]
]
