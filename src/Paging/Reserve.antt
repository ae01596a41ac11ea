-- ===== src/Paging/Reserve.antt =====
-- Reserving a page for a process.
use yetanotheros.Common.{
  ℕ, ◌+◌, ◌*◌, ◌%◌, ◌^◌, ◌<◌, ◌≤◌, ◌≡◌, ◌≢◌, ◌⊎◌, inl, inr, refl, sym, ap, ◌∙◌, Bool, true, false,
  List, [], ◌∷◌, ◌==◌, if◌then◌else◌, length, arith, Bool-cases, ==→ne, ==→eq,
}
use yetanotheros.Common.Outcome.{ok, bind_ok}
use yetanotheros.Libc.Memory.{Bytes}
use yetanotheros.Paging.Words.{load32}
use yetanotheros.Paging.Tables.{
  Machine, is_global, pte_get_paddr, pte_construct, mask_to_page, get_pd_index, get_pt_index,
}
use yetanotheros.Paging.Space.{table, walk, frame, IsSpare, IsSpace, paging_get-walk}
use yetanotheros.Paging.Ensure.{take_page-taken}
use yetanotheros.Paging.Map.{with_present}
use yetanotheros.Paging.MapLaws.{Takes, nothing, one, Maps, paging_map-Maps}
use yetanotheros.Paging.Take.{took, took-IsSpace, entry-took, walk-took}
use yetanotheros.Paging.Break.{Space, page_flags, widen, unsafe_vmreserve}

-- The physical page of an address; 0 if there is none
abbrev pub frame_of : Bytes → ℕ → ℕ → ℕ
frame_of m pd a = pte_get_paddr (walk m pd a)

pub walk-page :
    (m : Bytes) (pd a b : ℕ) → mask_to_page a ≡ mask_to_page b → walk m pd a ≡ walk m pd b
walk-page m pd a b e = λ i.
    if table m pd (get_pd_index (e i)) == 0
    then 0
    else load32 m (table m pd (get_pd_index (e i)) + 4 * get_pt_index (e i))

-- From one state of a process to a later one: what was mapped is mapped to the same page, no entry
-- of the directory becomes global, and the space is well-formed with the free pages that are left.
pub record Keeps (pd : ℕ) (s : Space) (s' : Space) (left : List ℕ) : Type 0 where
  pub directory : s'.arch.pd ≡ s.arch.pd
  pub base : s'.arch.vbreak ≡ s.arch.vbreak
  pub current : s'.arch.cur_vbreak ≡ s.arch.cur_vbreak
  pub space : IsSpace pd s'.machine left
  pub kept :
      (a : ℕ)
      → a < 2 ^ 32
      → frame_of s.machine.memory pd a ≢ 0
      → frame_of s'.machine.memory pd a ≡ frame_of s.machine.memory pd a
  pub local :
      (k : ℕ)
      → k < 1024
      → is_global (load32 s.machine.memory (pd + 4 * k)) ≡ false
      → is_global (load32 s'.machine.memory (pd + 4 * k)) ≡ false

left-length : {free left : List ℕ} → Takes free left → length free ≤ length left + 1
left-length nothing = omega arith
left-length one = omega arith

page_flags-lt : (flags : ℕ) → page_flags flags < 4096
page_flags-lt flags = ground arith

page_flags-local : (flags : ℕ) → is_global (page_flags flags) ≡ false
page_flags-local flags = ground arith

module _ (v flags : ℕ) (s : Space) (address : v < 2 ^ 32)
    (private : is_global
        (load32 s.machine.memory (s.arch.pd + 4 * get_pd_index (mask_to_page (mask_to_page v))))
      ≡ false) where
  fresh-Keeps :
      (w : ℕ) (free : List ℕ) (m : Machine)
      → IsSpace s.arch.pd s.machine (w ∷ free)
      → frame_of s.machine.memory s.arch.pd (mask_to_page v) ≡ 0
      → (maps : Maps s.arch.pd
          (mask_to_page v)
          (frame s.machine w)
          (page_flags flags)
          (took w s.machine)
          free
          m)
      → Keeps s.arch.pd s (record { arch = widen (mask_to_page v) s.arch; machine = m }) maps.left
        × (frame_of m.memory s.arch.pd (mask_to_page v) ≢ 0)
  fresh-Keeps w free m h unmapped maps =
      let f : IsSpare s.arch.pd s.machine (frame s.machine w) = h.spare w (inl refl) in
      (
        record {
          directory = refl;
          base = refl;
          current = refl;
          space = maps.space;
          kept = λ a lt used. ap pte_get_paddr (
              maps.entry a lt
              ∙ other_page a (mask_to_page a == mask_to_page (mask_to_page v)) refl used
              ∙ walk-took s.arch.pd w free s.machine h a lt);
          local = λ k lt was.
              maps.local k lt (ap is_global (entry-took s.arch.pd w free s.machine h k lt) ∙ was);
        },
        λ z. none_of (frame s.machine w) f.aligned f.positive (
            sym (
              ap pte_get_paddr
                (maps.entry (mask_to_page v) (omega arith) ∙ chosen (mask_to_page v)))
            ∙ z),
      )
    where
      chosen :
          (a : ℕ)
          → (if mask_to_page a == mask_to_page a
              then pte_construct (frame s.machine w) (with_present (page_flags flags))
              else walk (took w s.machine).memory s.arch.pd a)
            ≡ pte_construct (frame s.machine w) (with_present (page_flags flags))
      chosen a = ground arith

      none_of :
          (f : ℕ)
          → f % 4096 ≡ 0
          → 0 < f
          → ¬ (pte_get_paddr (pte_construct f (with_present (page_flags flags))) ≡ 0)
      none_of f hf pos z = absurd (omega arith)

      other_page :
          (a : ℕ) (b : Bool)
          → (mask_to_page a == mask_to_page (mask_to_page v)) ≡ b
          → frame_of s.machine.memory s.arch.pd a ≢ 0
          → (if b
              then pte_construct (frame s.machine w) (with_present (page_flags flags))
              else walk (took w s.machine).memory s.arch.pd a)
            ≡ walk (took w s.machine).memory s.arch.pd a
      other_page a true same used = absurd (
          used (
            ap pte_get_paddr
              (walk-page s.machine.memory s.arch.pd a (mask_to_page v) (==→eq _ _ same))
            ∙ unmapped))
      other_page a false same used = refl

  -- Reserving returns, with at most two pages taken, and the page is then mapped.
  pub unsafe_vmreserve-Keeps :
      (free : List ℕ)
      → IsSpace s.arch.pd s.machine free
      → 2 ≤ length free
      → (s' : Space) × (left : List ℕ) × (unsafe_vmreserve v flags s ≡ ok s')
        × Keeps s.arch.pd s s' left
        × (length free ≤ length left + 2)
        × (frame_of s'.machine.memory s.arch.pd (mask_to_page v) ≢ 0)
  unfolding unsafe_vmreserve
  unsafe_vmreserve-Keeps free h enough =
      by_frame (Bool-cases (frame_of s.machine.memory s.arch.pd (mask_to_page v) == 0)) free h
        enough
    where
      by_frame :
          ((frame_of s.machine.memory s.arch.pd (mask_to_page v) == 0) ≡ true)
            ⊎ ((frame_of s.machine.memory s.arch.pd (mask_to_page v) == 0) ≡ false)
          → (free : List ℕ) → IsSpace s.arch.pd s.machine free
          → 2 ≤ length free
          → (s' : Space) × (left : List ℕ) × (unsafe_vmreserve v flags s ≡ ok s')
            × Keeps s.arch.pd s s' left
            × (length free ≤ length left + 2)
            × (frame_of s'.machine.memory s.arch.pd (mask_to_page v) ≢ 0)
      by_frame (inr used) free h enough = (
        s,
        free,
        bind_ok _ (paging_get-walk s.arch.pd (mask_to_page v) s.machine free h (omega arith))
            ∙ rw used refl,
        record {
          directory = refl;
          base = refl;
          current = refl;
          space = h;
          kept = λ a lt ne. refl;
          local = λ k lt was. was;
        },
        omega arith,
        ==→ne _ 0 used,
      )
      by_frame (inl e) [] h enough = absurd (omega arith)
      by_frame (inl e) (w ∷ free) h enough =
          let f : IsSpare s.arch.pd s.machine (frame s.machine w) = h.spare w (inl refl) in
          let (m, runs, maps) =
            paging_map-Maps s.arch.pd (mask_to_page v) (frame s.machine w) (page_flags flags)
              (omega arith) f.word (page_flags-lt flags) (page_flags-local flags) free
              (took w s.machine) (took-IsSpace s.arch.pd w free s.machine h)
              (ap is_global (
                  entry-took s.arch.pd w free s.machine h
                    (get_pd_index (mask_to_page (mask_to_page v))) (omega arith))
                ∙ private)
              (inr (omega arith)) in
          let (keeps, mapped) = fresh-Keeps w free m h (==→eq _ 0 e) maps in
          (
            record { arch = widen (mask_to_page v) s.arch; machine = m },
            maps.left,
            bind_ok _
                  (paging_get-walk s.arch.pd (mask_to_page v) s.machine (w ∷ free) h (omega arith))
                ∙ rw e (
                    bind_ok _ (take_page-taken s.machine w free h.pages f.positive)
                    ∙ bind_ok _ runs),
            keeps,
            omega (arith, left-length maps.takes),
            mapped,
          )
