-- ===== src/Fat/ReadBounds.antt =====
-- Where reads of a FAT volume end, and how many bytes they give.
use yetanotheros.Common.{
  ℕ, zero, suc, ◌+◌, ◌-◌, ◌/◌, ◌%◌, ◌^◌, ◌<◌, ◌≤◌, ◌≡◌, inl, inr, refl, sym, ap, ◌∙◌, subst, Bool,
  true, false, Option, none, some, List, [], ◌++◌, ◌==◌, if◌then◌else◌, ltb, leb, arith, length,
  length-append, Bool-cases, Option-cases, ==→eq, le→ltb,
}
use yetanotheros.Common.Outcome.{Outcome, ok, bind_ok}
use yetanotheros.Fat.Volume.{Device, FatSuper, fat_first_sector_of_cluster, u32}
use yetanotheros.Fat.Table.{fat_read_fat}
use yetanotheros.Fat.Read.{
  read_bytes, link, follow, Progress, read_blocks, rounds_of, read_clusters, fat_read,
}
use yetanotheros.Fat.Nodes.{FatNode, fat_vfs_node_read}

length-read_bytes : (dev : Device) (sector off n : ℕ) → length (read_bytes dev sector off n) ≡ n
unfolding read_bytes
length-read_bytes dev sector off zero = refl
length-read_bytes dev sector off (suc n) = ap suc (length-read_bytes dev sector (off + 1) n)

-- What a part of a read has come to: no byte is lost, and the offset has been applied.
abbrev Goes : ℕ → Progress → Progress → Type 0
Goes bound p q = (q.left + length q.buf ≡ p.left + length p.buf) × (q.left ≤ bound) × (q.offset ≡ 0)

abbrev more : FatSuper → Progress → Bool
more s p = ltb s.bs.bytes_per_sector (u32 (p.left + p.offset))

abbrev portion : FatSuper → Progress → ℕ
portion s p = if more s p then s.bs.bytes_per_sector - p.offset else p.left

abbrev progress : FatSuper → Device → ℕ → Progress → Progress
progress s dev sector p = record {
  left = p.left - portion s p;
  offset = 0;
  buf = p.buf ++ read_bytes dev sector p.offset (portion s p);
}

module _ (s : FatSuper) (dev : Device) (pos : 0 < s.bs.bytes_per_sector) where
  progress-Goes :
      (sector : ℕ) (p : Progress)
      → p.offset < s.bs.bytes_per_sector
      → Goes (p.left - 1) p (progress s dev sector p)
  progress-Goes sector p inside = (
    subst (λ n. p.left - portion s p + n ≡ p.left + length p.buf)
        (sym (length-append p.buf (read_bytes dev sector p.offset (portion s p))))
        (subst (λ n. p.left - portion s p + (length p.buf + n) ≡ p.left + length p.buf)
          (sym (length-read_bytes dev sector p.offset (portion s p))) (ground arith)),
    ground arith,
    refl,
  )

  read_blocks-suc :
      (rounds sector : ℕ) (p : Progress)
      → p.offset < s.bs.bytes_per_sector
      → read_blocks (suc rounds) s dev sector p
        ≡ read_blocks rounds s dev (sector + 1) (progress s dev sector p)
  unfolding read_blocks
  read_blocks-suc rounds sector p inside = elim (Bool-cases (more s p)) [
    | inl y ↦ rw (y, le→ltb s.bs.bytes_per_sector p.offset (omega arith)) refl
    | inr n ↦ rw n refl
  ]

  read_blocks-Goes :
      (rounds sector : ℕ) (p : Progress)
      → p.offset ≡ 0
      → (q : Progress) × (read_blocks rounds s dev sector p ≡ ok q) × Goes p.left p q
  unfolding read_blocks
  read_blocks-Goes zero sector p e = (p, refl, (refl, omega arith, e))
  read_blocks-Goes (suc rounds) sector p e =
      let inside : p.offset < s.bs.bytes_per_sector = omega arith in
      let (sum, less, o) = progress-Goes sector p inside in
      let (q, runs, goes) = read_blocks-Goes rounds (sector + 1) (progress s dev sector p) o in
      (
        q,
        read_blocks-suc rounds sector p inside ∙ runs,
        (goes.0 ∙ sum, omega (arith, goes.1), goes.2),
      )

  -- The blocks of a cluster take some bytes.
  cluster-Goes :
      (rounds sector : ℕ) (p : Progress)
      → p.offset < s.bs.bytes_per_sector
      → (q : Progress) × (read_blocks (suc rounds) s dev sector p ≡ ok q) × Goes (p.left - 1) p q
  cluster-Goes rounds sector p inside =
      let (sum, less, o) = progress-Goes sector p inside in
      let (q, runs, goes) = read_blocks-Goes rounds (sector + 1) (progress s dev sector p) o in
      (
        q,
        read_blocks-suc rounds sector p inside ∙ runs,
        (goes.0 ∙ sum, omega (arith, goes.1), goes.2),
      )

-- A read that fails, or gives so many bytes
abbrev pub Gives : ℕ → Option (List ℕ) → Type 0
Gives n none = Unit {0}
Gives n (some bytes) = length bytes ≡ n

module _ (s : FatSuper) (dev : Device) (pos : 0 < s.bs.bytes_per_sector) where
  -- What `read_clusters` does after the blocks of a cluster
  abbrev after_cluster : ℕ → ℕ → Progress → Outcome (Option (List ℕ))
  after_cluster fuel cl q = elim (q.left == 0) [
    | true ↦ ok (some q.buf)
    | false ↦ elim (link (fat_read_fat s dev 0 cl)) [
      | none ↦ ok none
      | some next ↦ read_clusters fuel s dev next q
    ]
  ]

  after_cluster-Gives :
      (fuel cl : ℕ) (p q : Progress)
      → Goes (p.left - 1) p q
      → ((next : ℕ)
          → 0 < q.left
          → (r : Option (List ℕ)) × (read_clusters fuel s dev next q ≡ ok r)
            × Gives (q.left + length q.buf) r)
      → (r : Option (List ℕ)) × (after_cluster fuel cl q ≡ ok r) × Gives (p.left + length p.buf) r
  after_cluster-Gives fuel cl p q (sum, less, o) go = elim (Bool-cases (q.left == 0)) [
    | inl y ↦ (some q.buf, rw (after_cluster, y) refl, omega (arith, sum, ==→eq q.left 0 y))
    | inr n ↦ elim (Option-cases (link (fat_read_fat s dev 0 cl))) [
      | inl z ↦ (none, rw (after_cluster, n, z) refl, tt)
      | inr (next, found) ↦
          let (r, runs, gives) = go next (ground arith) in
          (r, rw (after_cluster, n, found) runs, rw (← sum) gives)
    ]
  ]

  read_clusters-suc :
      (fuel cl : ℕ) (p q : Progress)
      → read_blocks (rounds_of s p) s dev (fat_first_sector_of_cluster s cl) p ≡ ok q
      → read_clusters (suc fuel) s dev cl p ≡ after_cluster fuel cl q
  unfolding read_clusters
  read_clusters-suc fuel cl p q runs = bind_ok (after_cluster fuel cl) runs

  read_clusters-Gives :
      (fuel cl : ℕ) (p : Progress)
      → p.offset < s.bs.bytes_per_sector
      → 0 < p.left
      → p.left < fuel
      → (r : Option (List ℕ)) × (read_clusters fuel s dev cl p ≡ ok r)
        × Gives (p.left + length p.buf) r
  read_clusters-Gives zero cl p inside some_left enough = absurd (omega arith)
  read_clusters-Gives (suc fuel) cl p inside some_left enough =
      let sector = fat_first_sector_of_cluster s cl in
      let again : suc (rounds_of s p - 1) ≡ rounds_of s p = omega arith in
      let (q, runs, goes) = cluster-Goes s dev pos (rounds_of s p - 1) sector p inside in
      let (r, rest, gives) = after_cluster-Gives fuel cl p q goes (λ next left.
        read_clusters-Gives fuel next q (omega (arith, goes.2)) left (omega (arith, goes.1))) in
      (
        r,
        read_clusters-suc fuel cl p q (subst (λ k. read_blocks k s dev sector p ≡ ok q) again runs)
            ∙ rest,
        gives,
      )

-- A read that starts in the first sector of a cluster always ends, however many clusters it goes
-- through and whatever the table says: it fails with no bytes, or gives exactly as many bytes as
-- were asked for. Sectors are not empty.
pub fat_read-Gives :
    (s : FatSuper) (dev : Device) (first_cluster off num : ℕ)
    → 0 < s.bs.bytes_per_sector
    → off % s.bytes_per_cluster < s.bs.bytes_per_sector
    → (r : Option (List ℕ)) × (fat_read s dev first_cluster off num ≡ ok r) × Gives num r
unfolding fat_read
fat_read-Gives s dev first_cluster off num pos inside = elim (Bool-cases (num == 0)) [
  | inl y ↦ (none, rw (fat_read, y) refl, tt)
  | inr n ↦ elim (Option-cases (follow s dev (off / s.bytes_per_cluster) first_cluster)) [
    | inl z ↦ (none, rw (fat_read, n, z) refl, tt)
    | inr (cl, found) ↦
        let (r, runs, gives) =
          read_clusters-Gives s dev pos (suc num) cl
            (record { left = num; offset = off % s.bytes_per_cluster; buf = [] }) inside
            (ground arith) (omega arith) in
        (r, rw (fat_read, n, found) runs, subst (λ k. Gives k r) (omega arith) gives)
  ]
]

-- What a read of a node gives: nothing, or bytes of the file from the offset on.
abbrev pub GivesOf : FatNode → ℕ → ℕ → Option (List ℕ) → Type 0
GivesOf n off num none = Unit {0}
GivesOf n off num (some bytes) =
    (off + length bytes ≤ n.num_bytes)
    × (length bytes ≡ (if ltb n.num_bytes (off + num) then n.num_bytes - off else num))

Gives-GivesOf :
    (n : FatNode) (off num : ℕ)
    → off + num < 2 ^ 32
    → off < n.num_bytes
    → (r : Option (List ℕ))
    → Gives (if ltb n.num_bytes ((off + num) % 2 ^ 32) then n.num_bytes - off else num) r
    → GivesOf n off num r
Gives-GivesOf n off num small more_bytes none gives = tt
Gives-GivesOf n off num small more_bytes (some bytes) gives = (ground arith, ground arith)

-- A read of a node by a thread that has locked it ends, and gives nothing or the bytes asked for as
-- far as the file goes, never one behind its end. It starts in the first sector of a cluster, and
-- its end can be counted in 32 bits.
pub fat_vfs_node_read-GivesOf :
    (s : FatSuper) (dev : Device) (n : FatNode) (off num : ℕ)
    → 0 < s.bs.bytes_per_sector
    → off % s.bytes_per_cluster < s.bs.bytes_per_sector
    → off + num < 2 ^ 32
    → (r : Option (List ℕ)) × (fat_vfs_node_read s dev true n off num ≡ ok r) × GivesOf n off num r
unfolding fat_vfs_node_read
fat_vfs_node_read-GivesOf s dev n off num pos inside small = elim (Bool-cases (num == 0)) [
  | inl y ↦ (none, rw (fat_vfs_node_read, y) refl, tt)
  | inr z ↦ elim (Bool-cases (leb n.num_bytes off)) [
    | inl y ↦ (none, rw (fat_vfs_node_read, z, y) refl, tt)
    | inr more_bytes ↦
        let (r, runs, gives) =
          fat_read-Gives s dev n.first_cluster off
            (if ltb n.num_bytes ((off + num) % 2 ^ 32) then n.num_bytes - off else num) pos
            inside in
        (
          r,
          rw (fat_vfs_node_read, z, more_bytes) runs,
          Gives-GivesOf n off num small (ground arith) r gives,
        )
  ]
]
