-- ===== src/Fat/NodeLaws.antt =====
-- Lists of nodes, each with an address of its own: what is found after a change.
use yetanotheros.Common.{
  ℕ, ◌+◌, ◌≡◌, ◌≢◌, ◌⊎◌, inl, inr, refl, sym, ap, ◌∙◌, ◌&&◌, Option, none, some, List, [], ◌∷◌,
  ◌==◌, if◌then◌else◌, ltb, arith, length, Bool-cases, ==→eq, eq→==, eq_of_some,
}
use yetanotheros.Fat.Nodes.{
  FatNode, find_node, remove_node, update_node, unsafe_fat_get, lowest_node,
}

-- The addresses are distinct, and so are the first clusters.
abbrev pub Distinct : List FatNode → Type 0
Distinct [] = Unit {0}
Distinct (n ∷ ns) =
    (find_node n.node ns ≡ none) × (unsafe_fat_get n.first_cluster ns ≡ none) × Distinct ns

pub find_node-node :
    (id : ℕ) (ns : List FatNode) {n : FatNode} → find_node id ns ≡ some n → n.node ≡ id
unfolding find_node
find_node-node id [] e = cc
find_node-node id (m ∷ ns) e = elim (Bool-cases (m.node == id)) [
  | inl y ↦ sym (ap (λ x. x.node) (eq_of_some (rw y at e))) ∙ ==→eq m.node id y
  | inr n ↦ find_node-node id ns (rw n at e)
]

-- A change that keeps the address and the first cluster.
module _ (id : ℕ) (f : FatNode → FatNode) (same_node : (n : FatNode) → (f n).node ≡ n.node)
    (same_cluster : (n : FatNode) → (f n).first_cluster ≡ n.first_cluster) where
  pub find_node-update_ne :
      (j : ℕ) (ns : List FatNode) → j ≢ id → find_node j (update_node id f ns) ≡ find_node j ns
  unfolding find_node update_node
  find_node-update_ne j [] ne = refl
  find_node-update_ne j (n ∷ ns) ne = elim (Bool-cases (n.node == id)) [
    | inl y ↦ rw y (ground (arith, same_node n))
    | inr n' ↦ rw n' (ground (arith, find_node-update_ne j ns ne))
  ]

  pub find_node-update_self :
      (ns : List FatNode) {n : FatNode}
      → find_node id ns ≡ some n
      → find_node id (update_node id f ns) ≡ some (f n)
  unfolding find_node update_node
  find_node-update_self [] e = cc
  find_node-update_self (m ∷ ns) e = elim (Bool-cases (m.node == id)) [
    | inl y ↦ ground (arith, same_node m)
    | inr n' ↦ rw (n', n') (find_node-update_self ns (rw n' at e))
  ]

  pub update_node-absent :
      (j : ℕ) (ns : List FatNode) → find_node j ns ≡ none → find_node j (update_node id f ns) ≡ none
  unfolding find_node update_node
  update_node-absent j [] e = refl
  update_node-absent j (n ∷ ns) e = ground (arith, same_node n, update_node-absent j ns)

  pub unsafe_fat_get-update :
      (cl : ℕ) (ns : List FatNode) → unsafe_fat_get cl (update_node id f ns) ≡ unsafe_fat_get cl ns
  unfolding unsafe_fat_get update_node
  unsafe_fat_get-update cl [] = refl
  unsafe_fat_get-update cl (n ∷ ns) =
      ground (arith, same_node n, same_cluster n, unsafe_fat_get-update cl ns)

  pub length-update_node : (ns : List FatNode) → length (update_node id f ns) ≡ length ns
  unfolding update_node
  length-update_node [] = refl
  length-update_node (n ∷ ns) = ground (arith, length-update_node ns)

  pub update_node-Distinct : (ns : List FatNode) → Distinct ns → Distinct (update_node id f ns)
  unfolding update_node
  update_node-Distinct [] d = d
  update_node-Distinct (n ∷ ns) (a, b, d) = elim (Bool-cases (n.node == id)) [
    | inl y ↦ rw (y, same_node n, same_cluster n) (a, b, d)
    | inr n' ↦ rw n' (
      update_node-absent n.node ns a,
      unsafe_fat_get-update n.first_cluster ns ∙ b,
      update_node-Distinct ns d,
    )
  ]

module _ (id : ℕ) where
  pub find_node-remove_ne :
      (j : ℕ) (ns : List FatNode) → j ≢ id → find_node j (remove_node id ns) ≡ find_node j ns
  unfolding find_node remove_node
  find_node-remove_ne j [] ne = refl
  find_node-remove_ne j (n ∷ ns) ne = ground (arith, find_node-remove_ne j ns)

  remove_node-absent :
      (j : ℕ) (ns : List FatNode) → find_node j ns ≡ none → find_node j (remove_node id ns) ≡ none
  unfolding find_node remove_node
  remove_node-absent j [] e = refl
  remove_node-absent j (n ∷ ns) e = ground (arith, remove_node-absent j ns)

  pub find_node-remove_self :
      (ns : List FatNode) → Distinct ns → find_node id (remove_node id ns) ≡ none
  unfolding find_node remove_node
  find_node-remove_self [] d = refl
  find_node-remove_self (n ∷ ns) (a, b, d) = elim (Bool-cases (n.node == id)) [
    | inl y ↦ rw y (rw (==→eq n.node id y) at a)
    | inr n' ↦ rw (n', n') (find_node-remove_self ns d)
  ]

  unsafe_fat_get-remove :
      (cl : ℕ) (ns : List FatNode)
      → unsafe_fat_get cl ns ≡ none
      → unsafe_fat_get cl (remove_node id ns) ≡ none
  unfolding unsafe_fat_get remove_node
  unsafe_fat_get-remove cl [] e = refl
  unsafe_fat_get-remove cl (n ∷ ns) e = ground (arith, unsafe_fat_get-remove cl ns)

  pub remove_node-Distinct : (ns : List FatNode) → Distinct ns → Distinct (remove_node id ns)
  unfolding remove_node
  remove_node-Distinct [] d = d
  remove_node-Distinct (n ∷ ns) (a, b, d) = elim (Bool-cases (n.node == id)) [
    | inl y ↦ rw y d
    | inr n' ↦ rw n' (
      remove_node-absent n.node ns a,
      unsafe_fat_get-remove n.first_cluster ns b,
      remove_node-Distinct ns d,
    )
  ]

  pub length-remove_node :
      (ns : List FatNode) {n : FatNode}
      → find_node id ns ≡ some n
      → length (remove_node id ns) + 1 ≡ length ns
  unfolding remove_node find_node
  length-remove_node [] e = cc
  length-remove_node (m ∷ ns) e = elim (Bool-cases (m.node == id)) [
    | inl y ↦ rw y (omega arith)
    | inr n' ↦ rw n' (omega (arith, length-remove_node ns (rw n' at e)))
  ]

-- A node found by its first cluster is in the list.
pub unsafe_fat_get-some :
    (cl : ℕ) (ns : List FatNode) {id : ℕ}
    → Distinct ns
    → unsafe_fat_get cl ns ≡ some id
    → (n : FatNode) × (find_node id ns ≡ some n) × (n.first_cluster ≡ cl)
unfolding unsafe_fat_get find_node
unsafe_fat_get-some cl [] d e = cc
unsafe_fat_get-some cl (m ∷ ns) {id} (a, b, d) e = elim (Bool-cases (m.first_cluster == cl)) [
  | inl y ↦ (m, rw (eq→== m.node id (eq_of_some (rw y at e))) refl, ==→eq m.first_cluster cl y)
  | inr n' ↦
      let (n, found, same) = unsafe_fat_get-some cl ns d (rw n' at e) in
      elim (Bool-cases (m.node == id)) [
        | inl y ↦ cc (rw (==→eq m.node id y, found) at a)
        | inr other ↦ (n, rw other found, same)
      ]
]

-- What the loop of `unsafe_truncate` finds: a node that nobody refers to.
pub lowest_node-some :
    (ns : List FatNode) (h : ℕ) (best : Option ℕ) {id : ℕ}
    → Distinct ns
    → lowest_node h best ns ≡ some id
    → (best ≡ some id) ⊎ ((n : FatNode) × (find_node id ns ≡ some n) × (n.ref ≡ 0))
unfolding lowest_node find_node
lowest_node-some [] h best d e = inl e
lowest_node-some (m ∷ ns) h best {id} (a, b, d) e =
    elim (lowest_node-some ns (if m.ref == 0 && ltb m.hit h then m.hit else h)
      (if m.ref == 0 && ltb m.hit h then some m.node else best) d e) [
        | inl here ↦ elim (Bool-cases (m.ref == 0 && ltb m.hit h)) [
          | inl y ↦ inr (m, rw (eq→== m.node id (eq_of_some (rw y at here))) refl, ground arith)
          | inr n' ↦ inl (rw n' at here)
        ]
        | inr (n, found, free) ↦ elim (Bool-cases (m.node == id)) [
          | inl y ↦ cc (rw (==→eq m.node id y, found) at a)
          | inr other ↦ inr (n, rw other found, free)
        ]
      ]
