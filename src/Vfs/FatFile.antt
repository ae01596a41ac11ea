-- ===== src/Vfs/FatFile.antt =====
-- kernel/kernel/fs/fat_vfs.c as the virtual file system uses it: a node of a FAT volume whose
-- clusters have one sector is a node that can be read.
use yetanotheros.Common.{
  ℕ, ◌+◌, ◌-◌, ◌%◌, ◌^◌, ◌<◌, ◌≤◌, ◌≡◌, inl, inr, true, Option, none, some, List, [], ◌==◌,
  if◌then◌else◌, leb, ltb, length, arith, Bool-cases, ap, subst, refl,
}
use yetanotheros.Common.Outcome.{ok}
use yetanotheros.Fat.Volume.{Device, FatSuper}
use yetanotheros.Fat.Nodes.{FatNode, fat_vfs_node_read}
use yetanotheros.Fat.ReadBounds.{Gives, fat_read-Gives}
use yetanotheros.Vfs.File.{FileNode, ReadResult, got, read_error}

abbrev pub FitsIn : ℕ → Option (List ℕ) → Type 0
FitsIn num none = Unit {0}
FitsIn num (some bytes) = length bytes ≤ num

Gives-FitsIn :
    (size off num : ℕ) (r : Option (List ℕ))
    → Gives (if ltb size ((off + num) % 2 ^ 32) then size - off else num) r
    → FitsIn num r
Gives-FitsIn size off num none gives = tt
Gives-FitsIn size off num (some bytes) gives = ground arith

-- `fat_vfs_node_read` as an operation: no bytes for the result 0
abbrev pub read_result : Option (List ℕ) → ReadResult
read_result none = got []
read_result (some bytes) = got bytes

abbrev bytes_of : ReadResult → List ℕ
bytes_of (got bytes) = bytes
bytes_of (read_error e) = []

module _ (s : FatSuper) (dev : Device) (n : FatNode) (pos : 0 < s.bs.bytes_per_sector)
    (one_sector : (off : ℕ) → off % s.bytes_per_cluster < s.bs.bytes_per_sector) where
  -- A read of a locked node returns, with no more than was asked for.
  pub fat_node_reads :
      (off num : ℕ)
      → (r : Option (List ℕ)) × (fat_vfs_node_read s dev true n off num ≡ ok r) × FitsIn num r
  unfolding fat_vfs_node_read
  fat_node_reads off num = elim (Bool-cases (num == 0)) [
    | inl y ↦ (none, rw (fat_vfs_node_read, y) refl, tt)
    | inr z ↦ elim (Bool-cases (leb n.num_bytes off)) [
      | inl y ↦ (none, rw (fat_vfs_node_read, z, y) refl, tt)
      | inr more ↦
          let (r, runs, gives) =
            fat_read-Gives s dev n.first_cluster off
              (if ltb n.num_bytes ((off + num) % 2 ^ 32) then n.num_bytes - off else num) pos
              (one_sector off) in
          (r, rw (fat_vfs_node_read, z, more) runs, Gives-FitsIn n.num_bytes off num r gives)
    ]
  ]

  pub fits_within :
      (num : ℕ) (r : Option (List ℕ)) (bytes : List ℕ)
      → FitsIn num r
      → read_result r ≡ got bytes
      → length bytes ≤ num
  fits_within num none bytes fits e =
      subst (λ l. l ≤ num) (ap (λ x. length (bytes_of x)) e) (omega arith)
  fits_within num (some bytes') bytes fits e =
      subst (λ l. l ≤ num) (ap (λ x. length (bytes_of x)) e) fits

  -- The node, with the operations that `unsafe_create` gives it
  abbrev pub fat_file : FileNode
  fat_file = record {
    size = n.num_bytes;
    read = λ off num. read_result (fat_node_reads off num).0;
    reads_within = λ off num bytes.
        fits_within num (fat_node_reads off num).0 bytes (fat_node_reads off num).2;
  }
