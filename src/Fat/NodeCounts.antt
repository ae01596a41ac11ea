-- ===== src/Fat/NodeCounts.antt =====
-- The reference counts of nodes, as each call leaves them
use yetanotheros.Common.{
  ℕ, suc, ◌+◌, ◌%◌, ◌^◌, ◌<◌, ◌≡◌, ◌≢◌, inl, inr, refl, sym, ap, ◌∙◌, none, some, List, ◌∷◌, ◌==◌,
  leb, arith, length, Bool-cases, Option-cases, ==→eq, ==→ne, eq→==, eq_of_some,
}
use yetanotheros.Scheduler.Invariant.{count}
use yetanotheros.Ata.Claim.{remove, count-remove, length-remove, count-le-length}
use yetanotheros.Fat.Entry.{FatResult, fat_get_entry_cluster}
use yetanotheros.Fat.Nodes.{
  FatNode, NodeCache, find_node, remove_node, update_node, unsafe_fat_get, lowest_node, uint_max,
  use_node, release_node, unsafe_create, unsafe_truncate, safe_get_with_fat_result, fat_vfs_put,
  fat_vfs_truncate_threshold,
}
use yetanotheros.Fat.NodeLaws.{
  Distinct, find_node-update_ne, find_node-update_self, length-update_node, update_node-Distinct,
  find_node-remove_ne, find_node-remove_self, remove_node-Distinct, length-remove_node,
  unsafe_fat_get-some, lowest_node-some,
}

-- `held` has a node once for each call that got it and has not put it back.
pub record IsSound (c : NodeCache) (held : List ℕ) : Type 0 where
  pub distinct : Distinct c.node_list
  pub counted : (id : ℕ) (n : FatNode) → find_node id c.node_list ≡ some n → n.ref ≡ count id held
  pub alive : (id : ℕ) → count id held ≢ 0 → find_node id c.node_list ≢ none
  pub counted_nodes : c.nof_nodes ≡ length c.node_list
  pub few_nodes : length c.node_list < 2 ^ 32
  pub few : length held < 2 ^ 32

-- A change of one reference count, with who holds the node.
module _ (c : NodeCache) (held held' : List ℕ) (id : ℕ) (f : FatNode → FatNode) (n : FatNode)
    (same_node : (m : FatNode) → (f m).node ≡ m.node)
    (same_cluster : (m : FatNode) → (f m).first_cluster ≡ m.first_cluster) (v : IsSound c held)
    (found : find_node id c.node_list ≡ some n) (refs : (f n).ref ≡ count id held')
    (others : (j : ℕ) → j ≢ id → count j held' ≡ count j held)
    (bounded : length held' < 2 ^ 32) where
  pub IsSound-update : IsSound (record c { node_list = update_node id f c.node_list }) held'
  IsSound-update = record {
    distinct = update_node-Distinct id f same_node same_cluster c.node_list v.distinct;
    counted = λ j m e. elim (Bool-cases (j == id)) [
      | inl y ↦
          let here : f n ≡ m = eq_of_some (
            sym (find_node-update_self id f same_node same_cluster c.node_list found)
            ∙ (rw (==→eq j id y) at e)) in
          rw (← here, ==→eq j id y) refs
      | inr ne ↦ rw (others j (==→ne j id ne)) (
          v.counted j m (
            rw (find_node-update_ne id f same_node same_cluster j c.node_list (==→ne j id ne)) at
              e))
    ];
    alive = λ j used. elim (Bool-cases (j == id)) [
      | inl y ↦
          rw (==→eq j id y, find_node-update_self id f same_node same_cluster c.node_list found)
            (λ e. cc)
      | inr ne ↦
          rw (find_node-update_ne id f same_node same_cluster j c.node_list (==→ne j id ne))
            (v.alive j (rw (others j (==→ne j id ne)) at used))
    ];
    counted_nodes =
        v.counted_nodes ∙ sym (length-update_node id f same_node same_cluster c.node_list);
    few_nodes = rw (length-update_node id f same_node same_cluster c.node_list) v.few_nodes;
    few = bounded;
  }

-- A node that nobody refers to goes.
IsSound-remove :
    (c : NodeCache) (held : List ℕ) (id : ℕ) (n : FatNode)
    → IsSound c held
    → find_node id c.node_list ≡ some n
    → n.ref ≡ 0
    → IsSound
        (record {
          nof_nodes = (c.nof_nodes + uint_max) % 2 ^ 32;
          node_list = remove_node id c.node_list;
        })
        held
IsSound-remove c held id n v found free = record {
  distinct = remove_node-Distinct id c.node_list v.distinct;
  counted = λ j m e. elim (Bool-cases (j == id)) [
    | inl y ↦
        let gone = find_node-remove_self id c.node_list v.distinct in
        let there : find_node id (remove_node id c.node_list) ≡ some m = rw (==→eq j id y) at e in
        cc
    | inr ne ↦ v.counted j m (rw (find_node-remove_ne id j c.node_list (==→ne j id ne)) at e)
  ];
  alive = λ j used. elim (Bool-cases (j == id)) [
    | inl y ↦
        absurd (used (ap (λ x. count x held) (==→eq j id y) ∙ sym (v.counted id n found) ∙ free))
    | inr ne ↦ rw (find_node-remove_ne id j c.node_list (==→ne j id ne)) (v.alive j used)
  ];
  counted_nodes =
      omega (arith, v.counted_nodes, length-remove_node id c.node_list found, v.few_nodes);
  few_nodes = omega (arith, length-remove_node id c.node_list found, v.few_nodes);
  few = v.few;
}

pub unsafe_truncate-IsSound :
    (c : NodeCache) (held : List ℕ) → IsSound c held → IsSound (unsafe_truncate c).0 held
unfolding unsafe_truncate
unsafe_truncate-IsSound c held v = elim (Bool-cases (leb c.nof_nodes fat_vfs_truncate_threshold)) [
  | inl y ↦ rw y v
  | inr n ↦ rw n (elim (Option-cases (lowest_node uint_max none c.node_list)) [
    | inl z ↦ rw z v
    | inr (id, low) ↦ elim (lowest_node-some c.node_list uint_max none v.distinct low) [
      | inl e ↦ cc
      | inr (m, found, free) ↦ rw low (IsSound-remove c held id m v found free)
    ]
  ])
]

absent-count :
    (c : NodeCache) (held : List ℕ)
    → IsSound c held
    → (id : ℕ) → find_node id c.node_list ≡ none
    → count id held ≡ 0
absent-count c held v id e = elim (Bool-cases (count id held == 0)) [
  | inl y ↦ ==→eq (count id held) 0 y
  | inr n ↦ absurd (v.alive id (==→ne (count id held) 0 n) e)
]

pub first-found :
    (address : ℕ) (result : FatResult) (ns : List FatNode)
    → find_node address (unsafe_create address result ∷ ns) ≡ some (unsafe_create address result)
unfolding find_node unsafe_create
first-found address result ns = rw (eq→== address address refl) refl

first-count :
    (address : ℕ) (result : FatResult) (held : List ℕ)
    → count address held ≡ 0
    → (use_node (unsafe_create address result)).ref ≡ count address (address ∷ held)
unfolding unsafe_create
first-count address result held e = ground arith

module _ (c : NodeCache) (held : List ℕ) (v : IsSound c held)
    (room : suc (length held) < 2 ^ 32) where
  used_count :
      (id : ℕ) (n : FatNode) → n.ref ≡ count id held → (use_node n).ref ≡ count id (id ∷ held)
  used_count id n e = ground (arith, count-le-length id held)

  find-IsSound :
      (id : ℕ) (n : FatNode)
      → find_node id c.node_list ≡ some n
      → IsSound (record c { node_list = update_node id use_node c.node_list }) (id ∷ held)
  find-IsSound id n found =
      IsSound-update c held (id ∷ held) id use_node n (λ m. refl) (λ m. refl) v found
        (used_count id n (v.counted id n found)) (λ j ne. ground arith) room

  -- A new node, before it is referenced
  made-IsSound :
      (address : ℕ) (result : FatResult)
      → find_node address c.node_list ≡ none
      → unsafe_fat_get (fat_get_entry_cluster result.entry) c.node_list ≡ none
      → suc (length c.node_list) < 2 ^ 32
      → IsSound
          (record {
            nof_nodes = (c.nof_nodes + 1) % 2 ^ 32;
            node_list = unsafe_create address result ∷ c.node_list;
          })
          held
  unfolding unsafe_create find_node
  made-IsSound address result unused absent space = record {
    distinct = (unused, absent, v.distinct);
    counted = λ j m e. elim (Bool-cases (address == j)) [
      | inl y ↦
          let made : unsafe_create address result ≡ m = eq_of_some (rw y at e) in
          sym (ap (λ x. x.ref) made)
          ∙ sym (absent-count c held v j (rw (==→eq address j y) at unused))
      | inr ne ↦ v.counted j m (rw ne at e)
    ];
    alive = λ j used. elim (Bool-cases (address == j)) [
      | inl y ↦ rw y (λ e. cc)
      | inr ne ↦ rw ne (v.alive j used)
    ];
    counted_nodes = omega (arith, v.counted_nodes);
    few_nodes = space;
    few = v.few;
  }

  fresh-IsSound :
      (address : ℕ) (result : FatResult)
      → find_node address c.node_list ≡ none
      → unsafe_fat_get (fat_get_entry_cluster result.entry) c.node_list ≡ none
      → suc (length c.node_list) < 2 ^ 32
      → IsSound
          (record {
            nof_nodes = (c.nof_nodes + 1) % 2 ^ 32;
            node_list = update_node address use_node (unsafe_create address result ∷ c.node_list);
          })
          (address ∷ held)
  fresh-IsSound address result unused absent space =
      IsSound-update
        (record {
          nof_nodes = (c.nof_nodes + 1) % 2 ^ 32;
          node_list = unsafe_create address result ∷ c.node_list;
        })
        held (address ∷ held) address use_node (unsafe_create address result) (λ m. refl)
        (λ m. refl) (made-IsSound address result unused absent space)
        (first-found address result c.node_list)
        (first-count address result held (absent-count c held v address unused))
        (λ j ne. ground arith) room

  pub get-IsSound :
      (address : ℕ) (result : FatResult)
      → find_node address c.node_list ≡ none
      → suc (length c.node_list) < 2 ^ 32
      → IsSound
          (safe_get_with_fat_result address result c).0
          ((safe_get_with_fat_result address result c).1 ∷ held)
  unfolding safe_get_with_fat_result
  get-IsSound address result unused space =
      elim (Option-cases (unsafe_fat_get (fat_get_entry_cluster result.entry) c.node_list)) [
        | inr (id, found) ↦
            let (n, here, same) =
              unsafe_fat_get-some (fat_get_entry_cluster result.entry) c.node_list v.distinct
                found in
            rw (safe_get_with_fat_result, found) (find-IsSound id n here)
        | inl absent ↦
            rw (safe_get_with_fat_result, absent) (fresh-IsSound address result unused absent space)
      ]

pub put-IsSound :
    (c : NodeCache) (held : List ℕ) (id : ℕ)
    → IsSound c held
    → count id held ≢ 0
    → IsSound (fat_vfs_put id c) (remove id held)
unfolding fat_vfs_put
put-IsSound c held id v used = elim (Option-cases (find_node id c.node_list)) [
  | inl z ↦ absurd (v.alive id used z)
  | inr (n, found) ↦
      unsafe_truncate-IsSound (record c { node_list = update_node id release_node c.node_list })
        (remove id held)
        (IsSound-update c held (remove id held) id release_node n (λ m. refl) (λ m. refl) v found
          (ground
            (arith, v.counted id n found, count-remove id id held, count-le-length id held, v.few))
          (λ j ne. ground (arith, count-remove j id held))
          (omega (arith, length-remove id held, v.few)))
]
