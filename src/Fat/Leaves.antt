-- ===== src/Fat/Leaves.antt =====
-- kernel/kernel/fs/fat_vfs.c: the leaves of a directory's node. The indices of the first sixteen
-- are kept in the node; the others are found by reading on from the last of these.
use yetanotheros.Common.{
  ℕ, zero, suc, ◌+◌, ◌-◌, Bool, not, none, some, ◌==◌, if◌then◌else◌, ltb, set, get_elem?,
}
use yetanotheros.Common.Outcome.{Outcome, ok, panic, ◌>>=◌, ◌>>◌, kassert}
use yetanotheros.Fat.Volume.{Device, FatSuper, u32}
use yetanotheros.Fat.Entry.{
  FatResult, EntryIndex, entry_index, entry_last, entry_error, fat_read_entry,
}
use yetanotheros.Fat.Nodes.{
  FatNode, NodeCache, fat_vfs_cache_leaves, update_node, safe_get_with_fat_result,
}

-- An index is written to the cache, if there is room, and counted.
unfoldable pub cache_leaf : FatNode → ℕ → FatNode
cache_leaf n idx = record n {
  leaves =
      if ltb n.num_leaves fat_vfs_cache_leaves then set n.leaves n.num_leaves idx else n.leaves;
  num_leaves = u32 (n.num_leaves + 1);
}

-- `node_data->leaves[n]`, inside the array
unfoldable pub leaf_at : FatNode → ℕ → Outcome ℕ
leaf_at n k = elim (get_elem? n.leaves k) [ none ↦ panic | some idx ↦ ok idx ]

module _ (entries : ℕ) (s : FatSuper) (dev : Device) where
  -- The loop of `unsafe_maybe_fill_leaves`; `result` is what stands on the stack.
  unfoldable pub fill_leaves : ℕ → ℕ → FatResult → FatNode → Outcome FatNode
  unfolding fat_read_entry cache_leaf
  fill_leaves zero idx result n = panic
  fill_leaves (suc fuel) idx result n =
      fat_read_entry entries s dev n.first_cluster idx result >>= λ r. elim r.1 [
        | entry_error ↦ panic
        | entry_last ↦ ok n
        | entry_index next ↦ fill_leaves fuel next r.0 (cache_leaf n idx)
      ]

  -- `unsafe_maybe_fill_leaves`
  unfoldable pub unsafe_maybe_fill_leaves : ℕ → FatResult → FatNode → Outcome FatNode
  unfolding fill_leaves
  unsafe_maybe_fill_leaves fuel result n =
      kassert n.is_dir
      >> (if n.leaves_dirty
          then (fill_leaves fuel 0 result (record n { num_leaves = 0 }) >>= λ n1.
              ok (record n1 { leaves_dirty = not n1.leaves_dirty }))
          else ok n)

  -- `fat_vfs_node_get_num_leaves`
  unfoldable pub fat_vfs_node_get_num_leaves :
      ℕ → Bool → FatResult → FatNode → Outcome (FatNode × ℕ)
  unfolding unsafe_maybe_fill_leaves
  fat_vfs_node_get_num_leaves fuel held result n =
      kassert held
      >> (if n.is_dir
          then (unsafe_maybe_fill_leaves fuel result n >>= λ n1. ok (n1, n1.num_leaves))
          else ok (n, 1))

  -- The loop that skips leaves: so many entries are read, from an index on.
  unfoldable pub skip_leaves : ℕ → ℕ → EntryIndex → FatResult → Outcome FatResult
  unfolding fat_read_entry
  skip_leaves first_cluster zero idx result = ok result
  skip_leaves first_cluster (suc rounds) entry_last result = panic
  skip_leaves first_cluster (suc rounds) entry_error result = panic
  skip_leaves first_cluster (suc rounds) (entry_index idx) result =
      fat_read_entry entries s dev first_cluster idx result >>= λ r. elim r.1 [
        | entry_error ↦ panic
        | entry_last ↦ skip_leaves first_cluster rounds entry_last r.0
        | entry_index next ↦ skip_leaves first_cluster rounds (entry_index next) r.0
      ]

  -- The entry of leaf `k` of a node whose leaves have been read
  unfoldable pub leaf_entry : FatNode → ℕ → FatResult → Outcome FatResult
  unfolding skip_leaves fat_read_entry
  leaf_entry n k result =
      if ltb k fat_vfs_cache_leaves
      then (leaf_at n k >>= λ idx. fat_read_entry entries s dev n.first_cluster idx result >>= λ r.
          elim r.1 [ entry_error ↦ panic | entry_last ↦ ok r.0 | entry_index next ↦ ok r.0 ])
      else (leaf_at n (fat_vfs_cache_leaves - 1) >>= λ idx.
          skip_leaves n.first_cluster (k - fat_vfs_cache_leaves + 2) (entry_index idx) result)

  -- `fat_vfs_node_get_leaf_node` of a node that is in the cache of its super node: the cache with
  -- the leaves read, and the node of the leaf. `address` is what `kalloc` gives for a new node.
  unfoldable pub fat_vfs_node_get_leaf_node :
      ℕ → Bool → ℕ → FatResult → FatResult → FatNode → ℕ → NodeCache → Outcome (NodeCache × ℕ)
  unfolding unsafe_maybe_fill_leaves leaf_entry safe_get_with_fat_result update_node
  fat_vfs_node_get_leaf_node fuel held address fill_result result n k c =
      kassert held
      >> (if k == 0
          then ok (c, n.node)
          else (kassert n.is_dir >> unsafe_maybe_fill_leaves fuel fill_result n >>= λ n1.
              kassert (ltb k n1.num_leaves) >> leaf_entry n1 k result >>= λ r. ok (
                safe_get_with_fat_result address r
                  (record c { node_list = update_node n.node (λ m. n1) c.node_list }))))
