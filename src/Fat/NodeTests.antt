-- ===== src/Fat/NodeTests.antt =====
-- Nodes on the small volume, and the theorems about them there.
use yetanotheros.Common.{
  ◌==◌, if◌then◌else◌, ltb, ◌∷◌, ℕ, ◌≡◌, refl, true, false, Option, List, [], ◌∷◌, none, arith,
  replicate, ◌++◌,
}
use yetanotheros.Common.Outcome.{ok}
use yetanotheros.Fat.Volume.{first_sector_of_cluster}
use yetanotheros.Fat.Read.{read_bytes, follow, fat_read, read_clusters, read_blocks}
use yetanotheros.Fat.Entry.{FatResult, byte_at, short_name, fat_read_entry}
use yetanotheros.Fat.Nodes.{
  FatNode, NodeCache, find_node, safe_get_with_fat_result, fat_vfs_node_read,
}
use yetanotheros.Fat.NodeCounts.{IsSound}
use yetanotheros.Fat.NodeSteps.{NodeReach, start, next, get, NodeReach-IsSound}
use yetanotheros.Fat.ReadBounds.{Gives, GivesOf, fat_read-Gives, fat_vfs_node_read-GivesOf}
use yetanotheros.Fat.Leaves.{unsafe_maybe_fill_leaves, leaf_entry, leaf_at}
use yetanotheros.Fat.LeafLaws.{IsEntry, IsFilled, fill-leaf_entry-IsEntry}
use yetanotheros.Fat.Tests.{volume, directory, before, file_slot}
use yetanotheros.Fat.Volume.{Device}

abbrev empty_cache : NodeCache
empty_cache = record { nof_nodes = 0; node_list = [] }

-- A result for the directory at cluster 2
abbrev root_result : FatResult
root_result = record {
  dir_cluster = 0;
  entry = replicate 11 32 ++ (16 ∷ replicate 14 0) ++ (2 ∷ replicate 5 0);
  lfn = replicate 4 65;
}

abbrev one_node : NodeCache
one_node = (safe_get_with_fat_result 800 root_result empty_cache).0

reached : NodeReach one_node (800 ∷ [])
unfolding find_node safe_get_with_fat_result
reached = next start (get 800 root_result refl (omega arith) (omega arith) refl)

NodeReach-IsSound_example : IsSound one_node (800 ∷ [])
NodeReach-IsSound_example = NodeReach-IsSound reached

not_there : find_node 900 one_node.node_list ≡ none
unfolding find_node safe_get_with_fat_result
not_there = refl

fat_read-Gives_example :
    (r : Option (List ℕ)) × (fat_read volume directory 2 32 600 ≡ ok r) × Gives 600 r
fat_read-Gives_example = fat_read-Gives volume directory 2 32 600 (omega arith) (omega arith)

-- A file of 100 bytes, of which 40 from byte 80 on are asked for
abbrev pub file : FatNode
file = record {
  node = 800;
  is_dir = false;
  dir_cluster = 2;
  first_cluster = 2;
  ref = 1;
  hit = 1;
  leaves_dirty = true;
  name = [];
  num_bytes = 100;
  num_leaves = 0;
  leaves = replicate 16 0;
}

fat_vfs_node_read-GivesOf_example :
    (r : Option (List ℕ)) × (fat_vfs_node_read volume directory true file 80 40 ≡ ok r)
    × GivesOf file 80 40 r
fat_vfs_node_read-GivesOf_example =
    fat_vfs_node_read-GivesOf volume directory file 80 40 (omega arith) (omega arith) (omega arith)

abbrev root_node : FatNode
root_node = record file { is_dir = true }

-- A directory with the files B and A, of which A is leaf 1
abbrev two_files : Device
two_files sector off =
    if sector == 1632
    then (if off == 0 then 66 else if off == 32 then 65 else if ltb off 64 then 32 else 0)
    else 0

abbrev filled_root : FatNode
filled_root = record root_node {
  leaves_dirty = false;
  num_leaves = 2;
  leaves = 0 ∷ 1 ∷ replicate 14 0;
}

fills : unsafe_maybe_fill_leaves 4 volume two_files 4 before root_node ≡ ok filled_root
unfolding unsafe_maybe_fill_leaves fat_read_entry short_name fat_read follow read_clusters
    read_blocks first_sector_of_cluster read_bytes byte_at
fills = refl

abbrev leaf : FatResult
leaf = record { dir_cluster = 2; entry = file_slot; lfn = short_name [] file_slot }

finds : leaf_entry 4 volume two_files filled_root 1 before ≡ ok leaf
unfolding leaf_entry leaf_at fat_read_entry short_name fat_read follow read_clusters read_blocks
    first_sector_of_cluster read_bytes byte_at
finds = refl

fill-leaf_entry-IsEntry_example :
    IsEntry 4 volume two_files 2 1 leaf × IsFilled 4 volume two_files 2 filled_root
fill-leaf_entry-IsEntry_example =
    fill-leaf_entry-IsEntry 4 volume two_files 2 4 1 before before leaf root_node filled_root refl
      refl refl (omega arith) fills (omega arith) (omega arith) finds
