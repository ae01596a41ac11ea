-- ===== src/Fat/Nodes.antt =====
-- kernel/kernel/fs/fat_vfs.c: the cache of nodes of a super node. The mutex of the super node makes
-- each call one step. A node is known by its address.
use yetanotheros.Common.{
  ℕ, ◌+◌, ◌*◌, ◌^◌, ◌-◌, Bool, true, false, ◌&&◌, Option, none, some, List, [], ◌∷◌, ◌==◌,
  if◌then◌else◌, ltb, leb, take, replicate,
}
use yetanotheros.Common.Outcome.{Outcome, ok, panic, ◌>>=◌, ◌>>◌, kassert}
use yetanotheros.Fat.Volume.{Device, FatSuper, u32}
use yetanotheros.Fat.Read.{fat_read}
use yetanotheros.Fat.Entry.{
  FatResult, fat_get_entry_cluster, fat_walk_path, is_directory, byte_at, fat_lfn_name_size,
  fat_lfn_name_buf_size,
}

abbrev pub fat_vfs_truncate_threshold : ℕ
fat_vfs_truncate_threshold = 30

abbrev pub fat_vfs_cache_leaves : ℕ
fat_vfs_cache_leaves = 16

abbrev pub fat_invalid_cluster : ℕ
fat_invalid_cluster = 0

abbrev pub uint_max : ℕ
uint_max = 2 ^ 32 - 1

-- `struct vfs_node` with its `struct fat_vfs_node_data`, at address `node`
pub record FatNode : Type 0 where
  pub node : ℕ
  pub is_dir : Bool
  pub dir_cluster : ℕ
  pub first_cluster : ℕ
  pub ref : ℕ
  pub hit : ℕ
  pub leaves_dirty : Bool
  pub name : List ℕ
  pub num_bytes : ℕ
  pub num_leaves : ℕ
  pub leaves : List ℕ

-- The cache part of `struct fat_vfs_super_data`
pub record NodeCache : Type 0 where
  pub nof_nodes : ℕ
  pub node_list : List FatNode

-- The node at an address
unfoldable pub find_node : ℕ → List FatNode → Option FatNode
find_node id [] = none
find_node id (n ∷ ns) = if n.node == id then some n else find_node id ns

-- The loop of `unsafe_truncate`
unfoldable pub lowest_node : ℕ → Option ℕ → List FatNode → Option ℕ
lowest_node lowest_hit best [] = best
lowest_node lowest_hit best (n ∷ ns) =
    let lower : Bool = n.ref == 0 && ltb n.hit lowest_hit in
    lowest_node (if lower then n.hit else lowest_hit) (if lower then some n.node else best) ns

-- `LIST_REMOVE` of the node at an address
unfoldable pub remove_node : ℕ → List FatNode → List FatNode
remove_node id [] = []
remove_node id (n ∷ ns) = if n.node == id then ns else n ∷ remove_node id ns

-- `unsafe_truncate`
unfoldable pub unsafe_truncate : NodeCache → NodeCache × Bool
unfolding lowest_node remove_node
unsafe_truncate c =
    if leb c.nof_nodes fat_vfs_truncate_threshold
    then (c, false)
    else elim (lowest_node uint_max none c.node_list) [
      | none ↦ (c, false)
      | some id ↦ (
        record { nof_nodes = u32 (c.nof_nodes + uint_max); node_list = remove_node id c.node_list },
        true,
      )
    ]

-- `unsafe_fat_get`
unfoldable pub unsafe_fat_get : ℕ → List FatNode → Option ℕ
unsafe_fat_get first_cluster [] = none
unsafe_fat_get first_cluster (n ∷ ns) =
    if n.first_cluster == first_cluster then some n.node else unsafe_fat_get first_cluster ns

-- The size in an entry, bytes 28 to 31
abbrev pub entry_num_bytes : List ℕ → ℕ
entry_num_bytes e =
    byte_at e 28 + 256 * byte_at e 29 + 65536 * byte_at e 30 + 16777216 * byte_at e 31

-- `unsafe_create`, where `kalloc` gave the address
unfoldable pub unsafe_create : ℕ → FatResult → FatNode
unfolding fat_get_entry_cluster
unsafe_create address result = record {
  node = address;
  is_dir = is_directory result.entry;
  dir_cluster = result.dir_cluster;
  first_cluster = fat_get_entry_cluster result.entry;
  ref = 0;
  hit = 0;
  leaves_dirty = true;
  name = take fat_lfn_name_size result.lfn;
  num_bytes = entry_num_bytes result.entry;
  num_leaves = 0;
  leaves = replicate fat_vfs_cache_leaves 0;
}

-- A change of the node at an address
unfoldable pub update_node : ℕ → (FatNode → FatNode) → List FatNode → List FatNode
update_node id f [] = []
update_node id f (n ∷ ns) = if n.node == id then f n ∷ ns else n ∷ update_node id f ns

abbrev pub use_node : FatNode → FatNode
use_node n = record n { ref = u32 (n.ref + 1); hit = u32 (n.hit + 1) }

abbrev pub release_node : FatNode → FatNode
release_node n = record n { ref = u32 (n.ref + uint_max) }

-- `safe_get_with_fat_result`: the node is found, or made at the address
unfoldable pub safe_get_with_fat_result : ℕ → FatResult → NodeCache → NodeCache × ℕ
unfolding unsafe_fat_get unsafe_create update_node fat_get_entry_cluster
safe_get_with_fat_result address result c =
    elim (unsafe_fat_get (fat_get_entry_cluster result.entry) c.node_list) [
      | some id ↦ (record c { node_list = update_node id use_node c.node_list }, id)
      | none ↦ (
        record {
          nof_nodes = u32 (c.nof_nodes + 1);
          node_list = update_node address use_node (unsafe_create address result ∷ c.node_list);
        },
        address,
      )
    ]

-- `fat_vfs_get_root`, for the entry that the super node keeps of the root
unfoldable pub fat_vfs_get_root : ℕ → List ℕ → NodeCache → NodeCache × ℕ
unfolding safe_get_with_fat_result
fat_vfs_get_root address root_entry c =
    safe_get_with_fat_result address
      (record {
        dir_cluster = fat_invalid_cluster;
        entry = root_entry;
        lfn = replicate fat_lfn_name_buf_size 0;
      })
      c

-- `fat_vfs_get_by_path`; `entries` and `fuel` are those of `fat_walk_path`, and `result` is what
-- stood on the stack. No node is the result NULL.
unfoldable pub fat_vfs_get_by_path :
    ℕ
    → ℕ
    → FatSuper
    → Device
    → ℕ
    → List ℕ
    → List ℕ
    → FatResult
    → NodeCache
    → Outcome (NodeCache × Option ℕ)
unfolding safe_get_with_fat_result fat_get_entry_cluster
fat_vfs_get_by_path entries fuel s dev address root_entry path result c =
    fat_walk_path entries fuel s dev path (fat_get_entry_cluster root_entry) result >>= λ r.
    let got = safe_get_with_fat_result address r.0 c in
    if r.1 then ok (got.0, some got.1) else ok (c, none)

-- `fat_vfs_put`
unfoldable pub fat_vfs_put : ℕ → NodeCache → NodeCache
unfolding update_node unsafe_truncate
fat_vfs_put id c =
    (unsafe_truncate (record c { node_list = update_node id release_node c.node_list })).0

-- `fat_vfs_node_read`: the bytes in the buffer, or none for the result 0; `held` is what
-- `thread_mutex_held` answers of the node's mutex.
unfoldable pub fat_vfs_node_read :
    FatSuper → Device → Bool → FatNode → ℕ → ℕ → Outcome (Option (List ℕ))
fat_vfs_node_read s dev held n off num =
    if num == 0
    then ok none
    else (kassert held
        >> (if leb n.num_bytes off
            then ok none
            else fat_read s dev n.first_cluster off
                (if ltb n.num_bytes (u32 (off + num)) then n.num_bytes - off else num)))

-- `fat_vfs_node_get_size`
unfoldable pub fat_vfs_node_get_size : Bool → FatNode → Outcome ℕ
fat_vfs_node_get_size held n = kassert held >> ok n.num_bytes

-- `fat_vfs_node_get_name`
unfoldable pub fat_vfs_node_get_name : Bool → FatNode → Outcome (List ℕ)
fat_vfs_node_get_name held n = kassert held >> ok n.name

-- `fat_vfs_node_write`, which is not implemented
unfoldable pub fat_vfs_node_write : FatNode → ℕ → ℕ → Outcome ℕ
fat_vfs_node_write n off num = if num == 0 then ok 0 else panic
