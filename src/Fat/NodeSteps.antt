-- ===== src/Fat/NodeSteps.antt =====
-- The reference counts of nodes: whoever got a node and has not put it back can use it.
use yetanotheros.Common.{
  ℕ, suc, ◌^◌, ◌<◌, ◌≡◌, ◌≢◌, ◌↔◌, inl, inr, refl, ◌∙◌, subst, none, some, List, [], ◌∷◌, arith,
  length, Option-cases,
}
use yetanotheros.Scheduler.Invariant.{count}
use yetanotheros.Ata.Claim.{remove}
use yetanotheros.Fat.Entry.{FatResult, fat_get_entry_cluster}
use yetanotheros.Fat.Nodes.{
  FatNode, NodeCache, find_node, unsafe_fat_get, use_node, unsafe_create, safe_get_with_fat_result,
  fat_vfs_put,
}
use yetanotheros.Fat.NodeLaws.{find_node-update_ne, find_node-update_self, unsafe_fat_get-some}
use yetanotheros.Fat.NodeCounts.{IsSound, first-found, get-IsSound, put-IsSound}

-- What a caller of `safe_get_with_fat_result` has in hand: a node of the file's cluster, at the new
-- address just if no node had that cluster. The other nodes are the same.
abbrev pub GetsNode : NodeCache → ℕ → ℕ → NodeCache × ℕ → Type 0
GetsNode c address cluster got =
    ((n : FatNode) × (find_node got.1 got.0.node_list ≡ some n) × (n.first_cluster ≡ cluster))
    × ((j : ℕ) → j ≢ got.1 → find_node j got.0.node_list ≡ find_node j c.node_list)
    × ((got.1 ≡ address) ↔ (unsafe_fat_get cluster c.node_list ≡ none))

fresh_ne :
    (address : ℕ) (result : FatResult) (ns : List FatNode) (j : ℕ)
    → j ≢ address
    → find_node j (unsafe_create address result ∷ ns) ≡ find_node j ns
unfolding find_node unsafe_create
fresh_ne address result ns j ne = ground arith

created-cluster :
    (address : ℕ) (result : FatResult)
    → (unsafe_create address result).first_cluster ≡ fat_get_entry_cluster result.entry
unfolding unsafe_create
created-cluster address result = refl

-- A node that is got has the first cluster of the entry it was looked up by; it is a new one exactly
-- when no node had that cluster; and no other node changes. The addresses and the clusters in the
-- cache are distinct before, and the new address is that of no node.
pub safe_get_with_fat_result-GetsNode :
    (c : NodeCache) (held : List ℕ) (address : ℕ) (result : FatResult)
    → IsSound c held
    → find_node address c.node_list ≡ none
    → GetsNode c address
        (fat_get_entry_cluster result.entry)
        (safe_get_with_fat_result address result c)
unfolding safe_get_with_fat_result
safe_get_with_fat_result-GetsNode c held address result v unused =
    elim (Option-cases (unsafe_fat_get (fat_get_entry_cluster result.entry) c.node_list)) [
      | inr (id, found) ↦
          let (n, here, same) =
            unsafe_fat_get-some (fat_get_entry_cluster result.entry) c.node_list v.distinct found in
          rw (safe_get_with_fat_result, found)
            (
              (
                use_node n,
                find_node-update_self id use_node (λ m. refl) (λ m. refl) c.node_list here,
                same,
              ),
              λ j ne. find_node-update_ne id use_node (λ m. refl) (λ m. refl) j c.node_list ne,
              (λ e. cc, λ e. cc),
            )
      | inl absent ↦
          rw (safe_get_with_fat_result, absent)
            (
              (
                use_node (unsafe_create address result),
                find_node-update_self address use_node (λ m. refl) (λ m. refl) _
                    (first-found address result c.node_list),
                created-cluster address result,
              ),
              λ j ne.
                  find_node-update_ne address use_node (λ m. refl) (λ m. refl) j _ ne
                  ∙ fresh_ne address result c.node_list j ne,
              (λ e. refl, λ e. refl),
            )
    ]

-- A thread gets a node, for which `kalloc` may give an address that no node has, or puts one back.
pub data NodeCall (c : NodeCache) (held : List ℕ) : NodeCache → List ℕ → Type 0 where
  get :
      {c' : NodeCache} {id : ℕ} (address : ℕ) (result : FatResult)
      → find_node address c.node_list ≡ none
      → suc (length c.node_list) < 2 ^ 32
      → suc (length held) < 2 ^ 32
      → safe_get_with_fat_result address result c ≡ (c', id)
      → NodeCall c held c' (id ∷ held)
  put :
      {c' : NodeCache} (id : ℕ)
      → count id held ≢ 0
      → fat_vfs_put id c ≡ c'
      → NodeCall c held c' (remove id held)

pub data NodeReach : NodeCache → List ℕ → Type 0 where
  start : NodeReach (record { nof_nodes = 0; node_list = [] }) []
  next :
      {c c' : NodeCache} {held held' : List ℕ}
      → NodeReach c held
      → NodeCall c held c' held'
      → NodeReach c' held'

-- In whatever order nodes are got and put back, from the empty cache on: the nodes have distinct
-- addresses and distinct first clusters, each counts those who hold it, a node that is held has not
-- been truncated, and `nof_nodes` is their number. Only a node that is held is put back, and there
-- are fewer than 2 ^ 32 nodes and holders.
pub NodeReach-IsSound : {c : NodeCache} {held : List ℕ} → NodeReach c held → IsSound c held
unfolding find_node
NodeReach-IsSound start = record {
  distinct = tt;
  counted = λ id n e. cc;
  alive = λ id used. absurd (used refl);
  counted_nodes = refl;
  few_nodes = omega arith;
  few = omega arith;
}
NodeReach-IsSound (next {c} {held = held} r (get address result unused space room e)) =
    subst (λ (x : NodeCache × ℕ). IsSound x.0 (x.1 ∷ held)) e
      (get-IsSound c held (NodeReach-IsSound r) room address result unused space)
NodeReach-IsSound (next {c} {held = held} r (put id used e)) =
    subst (λ x. IsSound x (remove id held)) e (put-IsSound c held id (NodeReach-IsSound r) used)
