-- ===== src/Fat/Entry.antt =====
-- kernel/kernel/fs/fat_core.c: `fat_read_entry` and `fat_walk_path`, with what fat_types.h says of
-- directory entries. An entry is its 32 bytes, a path its characters before the zero.
use yetanotheros.Common.{
  ℕ, zero, suc, ◌+◌, ◌-◌, ◌*◌, ◌/◌, ◌%◌, Bool, true, false, Option, none, some, List, [], ◌∷◌, ◌++◌,
  ◌==◌, if◌then◌else◌, ltb, ◌&&◌, ◌||◌, not, take, drop, length, get_elem?, replicate,
}
use yetanotheros.Common.Outcome.{Outcome, ok, panic, ◌>>=◌, ◌>>◌, kassert}
use yetanotheros.Fat.Volume.{Device, FatSuper, fat_entry_size}
use yetanotheros.Fat.Read.{fat_read}

abbrev pub fat_lfn_chars : ℕ
fat_lfn_chars = 13

abbrev pub fat_lfn_name_size : ℕ
fat_lfn_name_size = 256

abbrev pub fat_lfn_name_buf_size : ℕ
fat_lfn_name_buf_size = 261

abbrev pub fat_unused_entry : ℕ
fat_unused_entry = 0xe5

abbrev pub vfs_separator : ℕ
vfs_separator = 47

-- Byte `i` of an entry
unfoldable pub byte_at : List ℕ → ℕ → ℕ
byte_at e i = elim (get_elem? e i) [ none ↦ 0 | some b ↦ b ]

-- `fat_is_lfn_entry`
abbrev pub fat_is_lfn_entry : List ℕ → Bool
fat_is_lfn_entry e = byte_at e 11 == 0x0f

-- `fat_is_lfn_deleted`
abbrev pub fat_is_lfn_deleted : List ℕ → Bool
fat_is_lfn_deleted e = byte_at e 0 / 128 % 2 == 1

-- `fat_get_lfn_nr`
abbrev pub fat_get_lfn_nr : List ℕ → ℕ
fat_get_lfn_nr e = byte_at e 0 % 64

-- `fat_get_entry_cluster`
unfoldable pub fat_get_entry_cluster : List ℕ → ℕ
unfolding byte_at
fat_get_entry_cluster e =
    (byte_at e 20 + 256 * byte_at e 21) * 65536 + (byte_at e 26 + 256 * byte_at e 27)

-- `entry.attributes & FAT_DIRECTORY`
abbrev pub is_directory : List ℕ → Bool
is_directory e = byte_at e 11 / 16 % 2 == 1

-- `fat_append_ascii_chars` on a field of `num` characters of two bytes: the low byte of each
unfoldable pub fat_append_ascii_chars : List ℕ → ℕ → ℕ → List ℕ
unfolding byte_at
fat_append_ascii_chars e off zero = []
fat_append_ascii_chars e off (suc num) = byte_at e off ∷ fat_append_ascii_chars e (off + 2) num

-- `fat_copy_all_ascii_chars`
unfoldable pub fat_copy_all_ascii_chars : List ℕ → List ℕ
unfolding fat_append_ascii_chars
fat_copy_all_ascii_chars e =
    fat_append_ascii_chars e 1 5 ++ fat_append_ascii_chars e 14 6 ++ fat_append_ascii_chars e 28 2

-- Bytes copied over a part of a buffer
abbrev pub copy_to : List ℕ → ℕ → List ℕ → List ℕ
copy_to buf off bytes = take off buf ++ bytes ++ drop (off + length bytes) buf

-- `kstrlen` of a buffer
unfoldable pub kstrlen : List ℕ → ℕ
kstrlen [] = 0
kstrlen (c ∷ cs) = let rest = kstrlen cs in if c == 0 then 0 else suc rest

-- The name of an entry with no long name: eight characters, and a dot and three more if the
-- first of these is not zero.
unfoldable pub short_name : List ℕ → List ℕ → List ℕ
unfolding kstrlen byte_at
short_name lfn e =
    let base = copy_to (copy_to lfn 0 (replicate 13 0)) 0 (take 8 e) in
    if byte_at e 8 == 0
    then base
    else (let dotted = copy_to base (kstrlen base) (46 ∷ []) in
        copy_to dotted (kstrlen dotted) (take 3 (drop 8 e)))

-- `struct fat_result`
pub record FatResult : Type 0 where
  pub dir_cluster : ℕ
  pub entry : List ℕ
  pub lfn : List ℕ

-- What `fat_read_entry` returns: an index, FAT_ENTRY_LAST or FAT_ENTRY_ERROR.
pub data EntryIndex : Type 0 where
  entry_index : ℕ → EntryIndex
  entry_last entry_error : EntryIndex

-- A long-name entry: the number of the sequence (`iseq + 1`) and the name with its part copied.
unfoldable pub lfn_entry : Bool → ℕ → List ℕ → List ℕ → Outcome (ℕ × List ℕ)
unfolding fat_copy_all_ascii_chars byte_at
lfn_entry in_lfn seq lfn e = do
  let seq' : ℕ = if in_lfn then seq - 1 else fat_get_lfn_nr e
  let lfn' : List ℕ = if in_lfn then lfn else replicate fat_lfn_name_buf_size 0
  kassert (in_lfn || ltb (seq' * fat_lfn_chars) fat_lfn_name_buf_size)
  kassert (ltb 0 seq')
  ok (seq', copy_to lfn' ((seq' - 1) * fat_lfn_chars) (fat_copy_all_ascii_chars e))

-- What the loop of `fat_read_entry` does with the entry that it has read: it returns, or goes on
-- with the next one.
unfoldable pub entry_round :
    (Bool → ℕ → FatResult → Outcome (FatResult × EntryIndex))
    → ℕ
    → ℕ
    → Bool
    → ℕ
    → FatResult
    → List ℕ
    → Outcome (FatResult × EntryIndex)
unfolding lfn_entry short_name
entry_round go_on first_cluster idx in_lfn seq result e =
    if byte_at e 0 == 0
    then ok (result, entry_last)
    else if byte_at e 0 == fat_unused_entry
    then go_on in_lfn seq result
    else if fat_is_lfn_entry e
    then (if fat_is_lfn_deleted e
        then go_on in_lfn seq result
        else lfn_entry in_lfn seq result.lfn e >>= λ part.
            go_on true part.0 (record result { lfn = part.1 }))
    else ok (
      record {
        dir_cluster = first_cluster;
        entry = e;
        lfn = if in_lfn then result.lfn else short_name result.lfn e;
      },
      entry_index (idx + 1),
    )

abbrev with_entry :
    FatResult
    → (List ℕ → Outcome (FatResult × EntryIndex))
    → Option (List ℕ)
    → Outcome (FatResult × EntryIndex)
with_entry result f none = ok (result, entry_error)
with_entry result f (some e) = f e

-- The loop of `fat_read_entry`
unfoldable pub read_entry_loop :
    ℕ → FatSuper → Device → ℕ → ℕ → Bool → ℕ → FatResult → Outcome (FatResult × EntryIndex)
unfolding entry_round
read_entry_loop zero s dev first_cluster idx in_lfn seq result = panic
read_entry_loop (suc fuel) s dev first_cluster idx in_lfn seq result =
    fat_read s dev first_cluster (idx * fat_entry_size) fat_entry_size
    >>= with_entry result (
        entry_round
          (λ in_lfn' seq' result'.
            read_entry_loop fuel s dev first_cluster (idx + 1) in_lfn' seq' result')
          first_cluster idx in_lfn seq result)

-- `fat_read_entry`
unfoldable pub fat_read_entry :
    ℕ → FatSuper → Device → ℕ → ℕ → FatResult → Outcome (FatResult × EntryIndex)
unfolding read_entry_loop
fat_read_entry fuel s dev first_cluster idx result =
    read_entry_loop fuel s dev first_cluster idx false 0 result

-- The characters before the next separator, and what begins behind it, if there is one
unfoldable pub node_name : List ℕ → List ℕ
node_name [] = []
node_name (c ∷ cs) = if c == vfs_separator then [] else c ∷ node_name cs

unfoldable pub next_node : List ℕ → Option (List ℕ)
next_node [] = none
next_node (c ∷ cs) = if c == vfs_separator then some cs else next_node cs

-- `kstrncmp` for the length of the second string: the first begins with it
unfoldable pub has_prefix : List ℕ → List ℕ → Bool
has_prefix s [] = true
has_prefix [] (c ∷ cs) = false
has_prefix (b ∷ bs) (c ∷ cs) = b == c && has_prefix bs cs

abbrev pub is_none : Option (List ℕ) → Bool
is_none none = true
is_none (some x) = false

-- The loop of `fat_walk_path` in one directory, and its call of itself for the next: `true` is
-- FAT_OK and `false` FAT_ERROR. `node` is the path behind its separator.
unfoldable pub walk :
    ℕ → ℕ → FatSuper → Device → List ℕ → ℕ → ℕ → FatResult → Outcome (FatResult × Bool)
unfolding fat_read_entry node_name next_node has_prefix fat_get_entry_cluster byte_at
walk entries zero s dev node cluster idx result = panic
walk entries (suc fuel) s dev node cluster idx result =
    kassert (ltb (length (node_name node)) fat_lfn_name_size)
    >> fat_read_entry entries s dev cluster idx result
    >>= λ r. elim r.1 [
      | entry_error ↦ panic
      | entry_last ↦ elim (has_prefix r.0.lfn (node_name node)) [
        | false ↦ ok (r.0, false)
        | true ↦ elim (next_node node) [
          | none ↦ ok (r.0, not (is_directory r.0.entry))
          | some rest ↦ elim (is_directory r.0.entry) [
            | true ↦ walk entries fuel s dev rest (fat_get_entry_cluster r.0.entry) 0 r.0
            | false ↦ ok (r.0, false)
          ]
        ]
      ]
      | entry_index idx' ↦ elim (has_prefix r.0.lfn (node_name node)) [
        | false ↦ walk entries fuel s dev node cluster idx' r.0
        | true ↦ elim (next_node node) [
          | none ↦ elim (is_directory r.0.entry) [
            | false ↦ ok (r.0, true)
            | true ↦ walk entries fuel s dev node cluster idx' r.0
          ]
          | some rest ↦ elim (is_directory r.0.entry) [
            | true ↦ walk entries fuel s dev rest (fat_get_entry_cluster r.0.entry) 0 r.0
            | false ↦ walk entries fuel s dev node cluster idx' r.0
          ]
        ]
      ]
    ]

-- `fat_walk_path`, on a path that begins with a separator
unfoldable pub fat_walk_path :
    ℕ → ℕ → FatSuper → Device → List ℕ → ℕ → FatResult → Outcome (FatResult × Bool)
unfolding walk
fat_walk_path entries fuel s dev [] root_cluster result = panic
fat_walk_path entries fuel s dev (c ∷ node) root_cluster result =
    kassert (c == vfs_separator) >> walk entries fuel s dev node root_cluster 0 result
