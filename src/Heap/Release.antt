-- ===== src/Heap/Release.antt =====
-- What `kfree` does to the list of blocks: it marks one, and drops the free blocks at the end if
-- the block next to the marked one is free or there is none.
use yetanotheros.Common.{
  ℕ, ◌≡◌, ◌≢◌, ◌<◌, ◌≤◌, refl, Bool, true, Option, some, List, [], ◌∷◌, ◌==◌, arith, sym, subst, ap,
  ◌∙◌, if◌then◌else◌, ne→==, eq→==, ◌⊎◌, inl, inr, Bool-cases,
}
use yetanotheros.Common.Store.{write, write_self, write_ne}
use yetanotheros.Heap.Alloc.{HeapAlloc}
use yetanotheros.Heap.Blocks.{
  Block, addr, header, last_of, first_of, entry, Chain, Chain-write, Chain-base-le,
}

abbrev pub freed : Block → Block
freed b = record b { free = true }

unfoldable pub mark : ℕ → List Block → List Block
mark p [] = []
mark p (b ∷ bs) = if addr b == p then freed b ∷ bs else b ∷ mark p bs

-- Whether the next newer block than the one at `p` is free; `newer` for the newest.
unfoldable pub newer_is_free : Bool → ℕ → List Block → Bool
newer_is_free newer p [] = newer
newer_is_free newer p (b ∷ bs) = if addr b == p then newer else newer_is_free b.free p bs

abbrev pub HasBlock : ℕ → List Block → Type 0
HasBlock p [] = ⊥
HasBlock p (b ∷ bs) = (addr b ≡ p) ⊎ HasBlock p bs

mark-here : (b : Block) (bs : List Block) (p : ℕ) → addr b ≡ p → mark p (b ∷ bs) ≡ freed b ∷ bs
unfolding mark
mark-here b bs p e = rw (eq→== (addr b) p e) refl

mark-there : (b : Block) (bs : List Block) (p : ℕ) → addr b ≢ p → mark p (b ∷ bs) ≡ b ∷ mark p bs
unfolding mark
mark-there b bs p e = rw (ne→== (addr b) p e) refl

pub last_of-mark : (p : ℕ) (bs : List Block) → last_of (mark p bs) ≡ last_of bs
unfolding mark
last_of-mark p [] = refl
last_of-mark p (b ∷ bs) = elim (Bool-cases (addr b == p)) [ inl y ↦ rw y refl | inr n ↦ rw n refl ]

entry-mark : (p n : ℕ) (bs : List Block) → entry n (mark p bs) ≡ entry n bs
unfolding mark
entry-mark p n [] = refl
entry-mark p n (b ∷ bs) = elim (Bool-cases (addr b == p)) [
  | inl y ↦ rw y refl
  | inr k ↦ rw k (entry-mark p (addr b) bs)
]

pub first_of-mark : (p : ℕ) (bs : List Block) → first_of (mark p bs) ≡ first_of bs
unfolding mark
first_of-mark p [] = refl
first_of-mark p (b ∷ bs) = elim (Bool-cases (addr b == p)) [
  | inl y ↦ rw y refl
  | inr k ↦ rw k (entry-mark p (addr b) bs)
]

-- Every block of a chain is below its end.
pub HasBlock-lt :
    (m : ℕ → Option HeapAlloc) (base stop next p : ℕ) (bs : List Block)
    → Chain m base stop next bs
    → HasBlock p bs
    → p < stop
HasBlock-lt m base stop next p [] c h = absurd h
HasBlock-lt m base stop next p (b ∷ bs) c (inl e) = omega arith
HasBlock-lt m base stop next p (b ∷ bs) c (inr h) =
    omega (arith, HasBlock-lt m base b.start (addr b) p bs c.2 h)

pub HasBlock-ge :
    (m : ℕ → Option HeapAlloc) (base stop next p : ℕ) (bs : List Block)
    → Chain m base stop next bs
    → HasBlock p bs
    → base ≤ p
HasBlock-ge m base stop next p [] c h = absurd h
HasBlock-ge m base stop next p (b ∷ bs) c (inl e) =
    omega (arith, Chain-base-le m base b.start (addr b) bs c.2)
HasBlock-ge m base stop next p (b ∷ bs) c (inr h) = HasBlock-ge m base b.start (addr b) p bs c.2 h

-- The header of a block, the chain after it has been marked, and what its `next` leads to: the
-- end, or a newer block.
pub record Marked (m : ℕ → Option HeapAlloc) (base stop next p : ℕ) (newer : Bool) (bs : List Block)
    : Type 0 where
  pub block : Block
  pub before : ℕ
  pub after : ℕ
  pub found : m p ≡ some (header block before after)
  pub chain :
      Chain (write m p (some (header (freed block) before after))) base stop next (mark p bs)
  pub neighbour :
      ((after ≡ next) × (newer_is_free newer p bs ≡ newer))
      ⊎ ((d : Block) × (a : ℕ) × (n : ℕ) × (after ≡ addr d)
          × (p < addr d)
          × (m (addr d) ≡ some (header d a n))
          × (newer_is_free newer p bs ≡ d.free))

Chain-Marked-here :
    (m : ℕ → Option HeapAlloc) (base stop next : ℕ) (newer : Bool) (b : Block) (bs : List Block)
    → Chain m base stop next (b ∷ bs)
    → Marked m base stop next (addr b) newer (b ∷ bs)
unfolding newer_is_free
Chain-Marked-here m base stop next newer b bs c = record {
  block = b;
  before = last_of bs;
  after = next;
  found = c.0;
  chain =
      subst
        (λ l. Chain (write m (addr b) (some (header (freed b) (last_of bs) next))) base stop next l)
        (sym (mark-here b bs (addr b) refl))
        (
          write_self m (addr b) (some (header (freed b) (last_of bs) next)),
          c.1,
          Chain-write m base b.start (addr b) (addr b) (some (header (freed b) (last_of bs) next))
              bs (omega arith) c.2,
        );
  neighbour = inl (refl, rw (eq→== (addr b) (addr b) refl) refl);
}

pub Chain-Marked :
    (m : ℕ → Option HeapAlloc) (base stop next p : ℕ) (newer : Bool) (bs : List Block)
    → Chain m base stop next bs
    → HasBlock p bs
    → Marked m base stop next p newer bs
unfolding newer_is_free
Chain-Marked m base stop next p newer [] c h = absurd h
Chain-Marked m base stop next p newer (b ∷ bs) c (inl e) =
    subst (λ q. Marked m base stop next q newer (b ∷ bs)) e
      (Chain-Marked-here m base stop next newer b bs c)
Chain-Marked m base stop next p newer (b ∷ bs) c (inr h) =
    let i = Chain-Marked m base b.start (addr b) p b.free bs c.2 h in
    let lt : p < addr b = omega (arith, HasBlock-lt m base b.start (addr b) p bs c.2 h) in
    let x = some (header (freed i.block) i.before i.after) in
    let over : newer_is_free newer p (b ∷ bs) ≡ newer_is_free b.free p bs =
      rw (ne→== (addr b) p (omega arith)) refl in
    record {
      block = i.block;
      before = i.before;
      after = i.after;
      found = i.found;
      chain =
          subst (λ l. Chain (write m p x) base stop next l) (sym (mark-there b bs p (omega arith)))
            (
              write_ne m p x (addr b) (omega arith)
                  ∙ c.0
                  ∙ ap (λ q. some (header b q next)) (sym (last_of-mark p bs)),
              c.1,
              i.chain,
            );
      neighbour = elim i.neighbour [
        | inl (at, free) ↦ inr (b, last_of bs, next, at, lt, c.0, over ∙ free)
        | inr (d, a, n, at, above, there, free) ↦ inr (d, a, n, at, above, there, over ∙ free)
      ];
    }
