-- ===== src/Paging/Growth.antt =====
-- Reserving page after page for a process.
use yetanotheros.Common.{
  ℕ, zero, suc, ◌+◌, ◌-◌, ◌*◌, ◌/◌, ◌%◌, ◌^◌, ◌<◌, ◌≤◌, ◌≡◌, ◌≢◌, ◌⊎◌, inl, inr, refl, sym, ap, ◌∙◌,
  subst, true, false, List, ltb, leb, length, arith, Bool-cases, ltb→lt,
}
use yetanotheros.Common.Outcome.{ok, bind_ok}
use yetanotheros.Paging.Words.{load32}
use yetanotheros.Paging.Tables.{Machine, is_global, pte_get_paddr, mask_to_page, get_pd_index}
use yetanotheros.Paging.Space.{IsSpace}
use yetanotheros.Paging.Break.{Space, unsafe_vmreserve, reserve_loop}
use yetanotheros.Paging.Reserve.{frame_of, walk-page, Keeps, unsafe_vmreserve-Keeps}

-- The entries of the directory for this range are not the kernel's.
abbrev pub IsPrivate : ℕ → ℕ → ℕ → Machine → Type 0
IsPrivate pd from to m =
    (a : ℕ) → from ≤ a → a ≤ to → is_global (load32 m.memory (pd + 4 * get_pd_index a)) ≡ false

Keeps-trans :
    (pd : ℕ) (s s1 s2 : Space) (left left' : List ℕ)
    → Keeps pd s s1 left
    → Keeps pd s1 s2 left'
    → Keeps pd s s2 left'
Keeps-trans pd s s1 s2 left left' k l = record {
  directory = l.directory ∙ k.directory;
  base = l.base ∙ k.base;
  current = l.current ∙ k.current;
  space = l.space;
  kept = λ a lt used. l.kept a lt (λ z. used (sym (k.kept a lt used) ∙ z)) ∙ k.kept a lt used;
  local = λ i lt was. l.local i lt (k.local i lt was);
}

-- Reserving a page, for the directory that the process has
reserve_at :
    (pd v flags : ℕ) (s : Space) (free : List ℕ)
    → s.arch.pd ≡ pd
    → v < 2 ^ 32
    → is_global (load32 s.machine.memory (pd + 4 * get_pd_index (mask_to_page (mask_to_page v))))
      ≡ false
    → IsSpace pd s.machine free
    → 2 ≤ length free
    → (s' : Space) × (left : List ℕ) × (unsafe_vmreserve v flags s ≡ ok s')
      × Keeps pd s s' left
      × (length free ≤ length left + 2)
      × (frame_of s'.machine.memory pd (mask_to_page v) ≢ 0)
reserve_at pd v flags s free e address private h enough =
    subst
      (λ d.
        is_global (load32 s.machine.memory (d + 4 * get_pd_index (mask_to_page (mask_to_page v))))
          ≡ false
        → IsSpace d s.machine free
        → (s' : Space) × (left : List ℕ) × (unsafe_vmreserve v flags s ≡ ok s')
          × Keeps d s s' left
          × (length free ≤ length left + 2)
          × (frame_of s'.machine.memory d (mask_to_page v) ≢ 0))
      e (λ p g. unsafe_vmreserve-Keeps v flags s address p free g enough) private h

module _ (pd to : ℕ) (aligned : to % 4096 ≡ 0) (below : to + 4096 < 2 ^ 32) where
  -- With enough pages, the loop ends, and all pages from here to the last are mapped.
  pub reserve_loop-Keeps :
      (fuel from : ℕ) (s : Space) (free : List ℕ)
      → s.arch.pd ≡ pd
      → from % 4096 ≡ 0
      → from < 2 ^ 32
      → (to + 4096 - from) / 4096 < fuel
      → IsPrivate pd from to s.machine
      → IsSpace pd s.machine free
      → 2 * ((to + 4096 - from) / 4096) ≤ length free
      → (s' : Space) × (left : List ℕ) × (reserve_loop fuel from to s ≡ ok s')
        × Keeps pd s s' left
        × ((a : ℕ) → from ≤ a → a < to + 4096 → frame_of s'.machine.memory pd a ≢ 0)
  unfolding reserve_loop
  reserve_loop-Keeps zero from s free e al word rounds private h enough = absurd (omega arith)
  reserve_loop-Keeps (suc fuel) from s free e al word rounds private h enough =
      elim (Bool-cases (leb from to)) [
        | inr over ↦ (
          s,
          free,
          rw (reserve_loop, over) refl,
          record {
            directory = refl;
            base = refl;
            current = refl;
            space = h;
            kept = λ a lt ne. refl;
            local = λ k lt was. was;
          },
          λ a low high. absurd (past a over low high),
        )
        | inl more ↦
            let (s1, left1, runs1, keeps1, count1, mapped1) =
              reserve_at pd from 3 s free e word
                (at_mask (mask_to_page (mask_to_page from)) (omega arith) more) h (two more) in
            let (s2, left2, runs2, keeps2, mapped2) =
              reserve_loop-Keeps fuel ((from + 4096) % 2 ^ 32) s1 left1 (keeps1.directory ∙ e)
                (omega arith) (omega arith) (fewer more) (still s1 left1 keeps1 more) keeps1.space
                (rest (length left1) more count1) in
            (
              s2,
              left2,
              loop_round s1 s2 more runs1 runs2,
              Keeps-trans pd s s1 s2 left1 left2 keeps1 keeps2,
              λ a low high.
                  all_mapped s1 s2 left2 keeps2 mapped1 mapped2 more a low high
                    (Bool-cases (ltb a (from + 4096))),
            )
      ]
    where
      loop_round :
          (s1 s2 : Space)
          → leb from to ≡ true
          → unsafe_vmreserve from 3 s ≡ ok s1
          → reserve_loop fuel ((from + 4096) % 2 ^ 32) to s1 ≡ ok s2
          → reserve_loop (suc fuel) from to s ≡ ok s2
      loop_round s1 s2 more first later = rw (reserve_loop, more) (bind_ok _ first ∙ later)

      past : (a : ℕ) → leb from to ≡ false → from ≤ a → a < to + 4096 → ⊥
      past a over low high = ground arith

      at_mask :
          (x : ℕ)
          → x ≡ from
          → leb from to ≡ true
          → is_global (load32 s.machine.memory (pd + 4 * get_pd_index x)) ≡ false
      at_mask x e more = private x (omega arith) (ground arith)

      two : leb from to ≡ true → 2 ≤ length free
      two more = ground arith

      fewer : leb from to ≡ true → (to + 4096 - (from + 4096) % 2 ^ 32) / 4096 < fuel
      fewer more = ground arith

      rest :
          (n : ℕ)
          → leb from to ≡ true
          → length free ≤ n + 2
          → 2 * ((to + 4096 - (from + 4096) % 2 ^ 32) / 4096) ≤ n
      rest n more count = ground arith

      still :
          (s1 : Space) (left : List ℕ)
          → Keeps pd s s1 left
          → leb from to ≡ true
          → IsPrivate pd ((from + 4096) % 2 ^ 32) to s1.machine
      still s1 left keeps more a low high =
          keeps.local (get_pd_index a) (omega arith) (private a (later a low more) high)
        where
          later : (a : ℕ) → (from + 4096) % 2 ^ 32 ≤ a → leb from to ≡ true → from ≤ a
          later a low more = ground arith

      page :
          (a : ℕ) → from ≤ a → a < from + 4096 → mask_to_page (mask_to_page from) ≡ mask_to_page a
      page a low high = omega arith

      all_mapped :
          (s1 s2 : Space) (left : List ℕ)
          → Keeps pd s1 s2 left
          → frame_of s1.machine.memory pd (mask_to_page from) ≢ 0
          → ((a : ℕ)
              → (from + 4096) % 2 ^ 32 ≤ a
              → a < to + 4096
              → frame_of s2.machine.memory pd a ≢ 0)
          → leb from to ≡ true
          → (a : ℕ) → from ≤ a
          → a < to + 4096
          → (ltb a (from + 4096) ≡ true) ⊎ (ltb a (from + 4096) ≡ false)
          → frame_of s2.machine.memory pd a ≢ 0
      all_mapped s1 s2 left keeps first later more a low high (inl here) = λ z. first (
          sym (keeps.kept (mask_to_page from) (omega arith) first)
          ∙ ap pte_get_paddr
              (walk-page s2.machine.memory pd (mask_to_page from) a (page a low (ltb→lt _ _ here)))
          ∙ z)
      all_mapped s1 s2 left keeps first later more a low high (inr there) =
          later a (ground arith) high
