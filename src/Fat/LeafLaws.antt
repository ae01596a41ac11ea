-- ===== src/Fat/LeafLaws.antt =====
-- Which entry of a directory a leaf is.
use yetanotheros.Common.{
  ℕ, zero, suc, ◌+◌, ◌-◌, ◌%◌, ◌^◌, ◌<◌, ◌≡◌, ◌≢◌, inl, inr, refl, sym, ◌∙◌, subst, Bool, true, not,
  some, ◌==◌, ltb, arith, length, get_elem?, Bool-cases, ==→eq, ==→ne, lt→ltb, ltb→lt, length-set,
  get_elem?-set_self, get_elem?-set_ne,
}
use yetanotheros.Common.Outcome.{
  Outcome, ok, panic, ◌>>=◌, with_bind, ok-injective, panic-ne-ok, kassert,
}
use yetanotheros.Fat.Volume.{Device, FatSuper}
use yetanotheros.Fat.Entry.{
  FatResult, EntryIndex, entry_index, entry_last, entry_error, fat_read_entry,
}
use yetanotheros.Fat.Nodes.{FatNode, fat_vfs_cache_leaves}
use yetanotheros.Fat.Leaves.{
  cache_leaf, fill_leaves, unsafe_maybe_fill_leaves, skip_leaves, leaf_at, leaf_entry,
}

leaf_at-some : (n : FatNode) (k j : ℕ) → get_elem? n.leaves k ≡ some j → leaf_at n k ≡ ok j
unfolding leaf_at
leaf_at-some n k j e = rw (leaf_at, e) refl

module _ (entries : ℕ) (s : FatSuper) (dev : Device) (cl : ℕ) where
  -- After `k` entries from index `i` on, the next one is at index `j`.
  pub data Entries (i : ℕ) : ℕ → ℕ → Type 0 where
    here : Entries i 0 i
    further :
        {j k l : ℕ} (before after : FatResult)
        → Entries i k j
        → fat_read_entry entries s dev cl j before ≡ ok (after, entry_index l)
        → Entries i (suc k) l

  -- `r` is what the `k`-th entry of the directory reads as.
  pub record IsEntry (k : ℕ) (r : FatResult) : Type 0 where
    pub idx : ℕ
    pub before : FatResult
    pub next : EntryIndex
    pub at : Entries 0 k idx
    pub reads : fat_read_entry entries s dev cl idx before ≡ ok (r, next)

  -- The leaves so far, when the loop stands at index `idx`
  pub record IsFilling (n : FatNode) (idx : ℕ) : Type 0 where
    pub cluster : n.first_cluster ≡ cl
    pub counted : Entries 0 n.num_leaves idx
    pub cached :
        (k : ℕ)
        → k < n.num_leaves
        → k < fat_vfs_cache_leaves
        → (j : ℕ) × (get_elem? n.leaves k ≡ some j) × Entries 0 k j
    pub full : length n.leaves ≡ fat_vfs_cache_leaves

  -- All leaves have been read: behind them the directory ends.
  pub record IsFilled (n : FatNode) : Type 0 where
    pub last : ℕ
    pub filling : IsFilling n last
    pub before : FatResult
    pub after : FatResult
    pub ends : fat_read_entry entries s dev cl last before ≡ ok (after, entry_last)

  cache_leaf-num_leaves :
      (n : FatNode) (idx : ℕ) → (cache_leaf n idx).num_leaves ≡ (n.num_leaves + 1) % 2 ^ 32
  unfolding cache_leaf
  cache_leaf-num_leaves n idx = refl

  cache_leaf-IsFilling :
      (n : FatNode) (idx next : ℕ) (before after : FatResult)
      → IsFilling n idx
      → suc n.num_leaves < 2 ^ 32
      → fat_read_entry entries s dev cl idx before ≡ ok (after, entry_index next)
      → IsFilling (cache_leaf n idx) next
  unfolding cache_leaf
  cache_leaf-IsFilling n idx next before after f small read = record {
    cluster = f.cluster;
    counted = subst (λ k. Entries 0 k next) (omega arith) (further before after f.counted read);
    cached = λ k lt room. elim (Bool-cases (k == n.num_leaves)) [
      | inl y ↦
          let same : k ≡ n.num_leaves = ==→eq k n.num_leaves y in
          (
            idx,
            rw (lt→ltb n.num_leaves fat_vfs_cache_leaves (omega arith), same)
                (get_elem?-set_self n.leaves n.num_leaves idx (omega (arith, f.full))),
            subst (λ m. Entries 0 m idx) (sym same) f.counted,
          )
      | inr z ↦
          let other : k ≢ n.num_leaves = ==→ne k n.num_leaves z in
          let (j, there, at) = f.cached k (omega arith) room in
          (
            j,
            elim (Bool-cases (ltb n.num_leaves fat_vfs_cache_leaves)) [
              | inl y ↦
                  rw y (get_elem?-set_ne n.leaves n.num_leaves k idx (λ e. other (sym e)) ∙ there)
              | inr past ↦ rw past there
            ],
            at,
          )
    ];
    full = elim (Bool-cases (ltb n.num_leaves fat_vfs_cache_leaves)) [
      | inl y ↦ rw (y, length-set n.leaves n.num_leaves idx) f.full
      | inr z ↦ rw z f.full
    ];
  }

  fill_leaves-IsFilled :
      (fuel idx : ℕ) (result : FatResult) (n n' : FatNode)
      → IsFilling n idx
      → n.num_leaves + fuel < 2 ^ 32
      → fill_leaves entries s dev fuel idx result n ≡ ok n'
      → IsFilled n'
  unfolding fill_leaves
  fill_leaves-IsFilled zero idx result n n' f small e = absurd (panic-ne-ok e)
  fill_leaves-IsFilled (suc fuel) idx result n n' f small e =
      with_bind (fat_read_entry entries s dev n.first_cluster idx result) _ e λ r read rest.
        fill_round fuel idx result n n' f small r (rw f.cluster at read) rest
          (λ next. fill_leaves-IsFilled fuel next r.0 (cache_leaf n idx) n')
    where
      fill_round :
          (fuel idx : ℕ) (result : FatResult) (n n' : FatNode)
          → IsFilling n idx
          → n.num_leaves + suc fuel < 2 ^ 32
          → (r : FatResult × EntryIndex) → fat_read_entry entries s dev cl idx result ≡ ok r
          → (elim r.1 [
            | entry_error ↦ panic
            | entry_last ↦ ok n
            | entry_index next ↦ fill_leaves entries s dev fuel next r.0 (cache_leaf n idx)
          ])
            ≡ ok n'
          → ((next : ℕ)
              → IsFilling (cache_leaf n idx) next
              → (cache_leaf n idx).num_leaves + fuel < 2 ^ 32
              → fill_leaves entries s dev fuel next r.0 (cache_leaf n idx) ≡ ok n'
              → IsFilled n')
          → IsFilled n'
      fill_round fuel idx result n n' f small (after, entry_error) read e go =
          absurd (panic-ne-ok e)
      fill_round fuel idx result n n' f small (after, entry_last) read e go =
          subst IsFilled (ok-injective e)
            (record { last = idx; filling = f; before = result; after = after; ends = read })
      fill_round fuel idx result n n' f small (after, entry_index next) read e go =
          go next (cache_leaf-IsFilling n idx next result after f (omega arith) read)
            (omega (arith, cache_leaf-num_leaves n idx)) e

  reads-IsEntry :
      (k idx : ℕ) (before after r : FatResult) (next : EntryIndex)
      → Entries 0 k idx
      → fat_read_entry entries s dev cl idx before ≡ ok (after, next)
      → ok after ≡ ok r
      → IsEntry (k + 0) r
  reads-IsEntry k idx before after r next at read e =
      subst (λ x. IsEntry x r) (omega arith)
        (subst (IsEntry k) (ok-injective e)
          (record { idx = idx; before = before; next = next; at = at; reads = read }))

  -- What is done with the last entry that is read
  abbrev last_read : FatResult × EntryIndex → Outcome FatResult
  last_read r = elim r.1 [ entry_error ↦ panic | entry_last ↦ ok r.0 | entry_index next ↦ ok r.0 ]

  last-IsEntry :
      (k idx : ℕ) (result r : FatResult)
      → Entries 0 k idx
      → (fat_read_entry entries s dev cl idx result >>= last_read) ≡ ok r
      → IsEntry (k + 0) r
  last-IsEntry k idx result r at e =
      with_bind (fat_read_entry entries s dev cl idx result) _ e
        λ q read rest. last_round q read rest
    where
      last_round :
          (q : FatResult × EntryIndex)
          → fat_read_entry entries s dev cl idx result ≡ ok q
          → last_read q ≡ ok r
          → IsEntry (k + 0) r
      last_round (after, entry_error) read e' = absurd (panic-ne-ok e')
      last_round (after, entry_last) read e' =
          reads-IsEntry k idx result after r entry_last at read e'
      last_round (after, entry_index next) read e' =
          reads-IsEntry k idx result after r (entry_index next) at read e'

  skip_leaves-IsEntry :
      (m k idx : ℕ) (result r : FatResult)
      → Entries 0 k idx
      → skip_leaves entries s dev cl (suc m) (entry_index idx) result ≡ ok r
      → IsEntry (k + m) r
  unfolding skip_leaves
  skip_leaves-IsEntry zero k idx result r at e = last-IsEntry k idx result r at e
  skip_leaves-IsEntry (suc m) k idx result r at e =
      with_bind (fat_read_entry entries s dev cl idx result) _ e
        λ q read rest. skip_round q read rest (λ next. skip_leaves-IsEntry m (suc k) next q.0 r)
    where
      skip_round :
          (q : FatResult × EntryIndex)
          → fat_read_entry entries s dev cl idx result ≡ ok q
          → (elim q.1 [
            | entry_error ↦ panic
            | entry_last ↦ skip_leaves entries s dev cl (suc m) entry_last q.0
            | entry_index next ↦ skip_leaves entries s dev cl (suc m) (entry_index next) q.0
          ])
            ≡ ok r
          → ((next : ℕ)
              → Entries 0 (suc k) next
              → skip_leaves entries s dev cl (suc m) (entry_index next) q.0 ≡ ok r
              → IsEntry (suc k + m) r)
          → IsEntry (k + suc m) r
      skip_round (after, entry_error) read e' go = absurd (panic-ne-ok e')
      skip_round (after, entry_last) read e' go = absurd (panic-ne-ok e')
      skip_round (after, entry_index next) read e' go =
          subst (λ x. IsEntry x r) (omega arith) (go next (further result after at read) e')

  leaf_entry-IsEntry :
      (n : FatNode) (k : ℕ) (result r : FatResult)
      → IsFilled n
      → k < n.num_leaves
      → leaf_entry entries s dev n k result ≡ ok r
      → IsEntry k r
  unfolding leaf_entry
  leaf_entry-IsEntry n k result r filled lt e = elim (Bool-cases (ltb k fat_vfs_cache_leaves)) [
    | inl y ↦
        let (j, there, at) = filled.filling.cached k lt (ltb→lt k fat_vfs_cache_leaves y) in
        subst (λ x. IsEntry x r) (omega arith)
          (last-IsEntry k j result r at
            (rw (y, leaf_at-some n k j there, filled.filling.cluster, leaf_entry) at e))
    | inr z ↦
        let (j, there, at) =
          filled.filling.cached (fat_vfs_cache_leaves - 1) (ground arith) (omega arith) in
        let rounds : k - fat_vfs_cache_leaves + 2 ≡ suc (k - 15) = ground arith in
        subst (λ x. IsEntry x r) (ground arith)
          (skip_leaves-IsEntry (k - 15) 15 j result r at
            (rw (z, leaf_at-some n 15 j there, filled.filling.cluster, rounds, leaf_entry) at e))
  ]

  zero-IsFilling :
      (n : FatNode)
      → n.first_cluster ≡ cl
      → length n.leaves ≡ fat_vfs_cache_leaves
      → IsFilling (record n { num_leaves = 0 }) 0
  zero-IsFilling n same full = record {
    cluster = same;
    counted = here;
    cached = λ k lt room. absurd (omega arith);
    full = full;
  }

  clean-IsFilled : (n : FatNode) (b : Bool) → IsFilled n → IsFilled (record n { leaves_dirty = b })
  clean-IsFilled n b f = record {
    last = f.last;
    filling = record {
      cluster = f.filling.cluster;
      counted = f.filling.counted;
      cached = f.filling.cached;
      full = f.filling.full;
    };
    before = f.before;
    after = f.after;
    ends = f.ends;
  }

  -- The leaves of a directory whose leaves are dirty are read, and then leaf `k`, which is not the
  -- leaf 0 that stands for the node itself, is looked up. If both return, what is read for the leaf
  -- is the `k`-th entry of the directory, counted from 0, whether its index is in the cache or the
  -- entries behind the cache are skipped; and behind `num_leaves` entries the directory ends. There
  -- are fewer than 2 ^ 32 entries to read.
  pub fill-leaf_entry-IsEntry :
      (fuel k : ℕ) (before result r : FatResult) (n n1 : FatNode)
      → n.first_cluster ≡ cl
      → n.leaves_dirty ≡ true
      → length n.leaves ≡ fat_vfs_cache_leaves
      → fuel < 2 ^ 32
      → unsafe_maybe_fill_leaves entries s dev fuel before n ≡ ok n1
      → 0 < k
      → k < n1.num_leaves
      → leaf_entry entries s dev n1 k result ≡ ok r
      → IsEntry k r × IsFilled n1
  unfolding unsafe_maybe_fill_leaves
  fill-leaf_entry-IsEntry fuel k before result r n n1 same dirty full small fills pos lt e =
      let filled : IsFilled n1 = with_bind (kassert n.is_dir) _ fills λ u _ e1.
        with_bind
          (fill_leaves entries s dev fuel 0 before
            (record n { leaves_dirty = true; num_leaves = 0 }))
          _ (rw dirty at e1)
          λ n2 e2 e3. subst IsFilled (ok-injective e3) (
            clean-IsFilled n2 (not n2.leaves_dirty) (
              fill_leaves-IsFilled fuel 0 before (record n { leaves_dirty = true; num_leaves = 0 })
                n2 (zero-IsFilling (record n { leaves_dirty = true }) same full) (omega arith)
                e2)) in
      (leaf_entry-IsEntry n1 k result r filled lt e, filled)
