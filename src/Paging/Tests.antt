-- ===== src/Paging/Tests.antt =====
-- A machine with an empty page directory and two free pages, and the theorems there.
use yetanotheros.Common.{
  ℕ, ◌+◌, ◌^◌, ◌<◌, ◌≤◌, ◌≡◌, ◌≢◌, refl, true, false, List, [], ◌∷◌, ◌==◌, if◌then◌else◌, inl, inr,
  arith, ◌∙◌, Has, subst, sym, ap, eq→==,
}
use yetanotheros.Common.Outcome.{ok}
use yetanotheros.Palloc.Pages.{Palloc, palloc_get_remaining}
use yetanotheros.Palloc.FreeList.{IsPalloc, put_back, put_back-IsPalloc}
use yetanotheros.Paging.Words.{load32}
use yetanotheros.Paging.Tables.{
  Machine, pte_get_paddr, pte_construct, mask_to_page, paging_map, paging_get,
}
use yetanotheros.Paging.Space.{table, walk, frame, IsSpare, IsSpace}
use yetanotheros.Paging.MapLaws.{Takes, nothing, one, Maps, paging_map-Maps, paging_map-paging_get}
use yetanotheros.Paging.Map.{with_present}
use yetanotheros.Paging.Reserve.{frame_of}
use yetanotheros.Paging.DataPages.{phys, IsData}
use yetanotheros.Paging.Exchange.{vmread, vmwrite}
use yetanotheros.Paging.ReadBack.{vmread-vmwrite}
use yetanotheros.Paging.Break.{Space, proc_brk}
use yetanotheros.Paging.BreakLaws.{proc_brk-maps}
use yetanotheros.Vm.Layout.{VmRegion, vm_is_static_p, vm_get_pflags}

-- Physical memory from 0x100000 to 0x103000, as the allocator sees it
abbrev no_pages : Palloc
no_pages = record {
  pbase = 0x10_0000;
  vbase = 0xc010_0000;
  size = 0x3000;
  first_free_page = 0;
  remaining_pages = 0;
  page = λ _. record { magic = 0; prev = 0; next = 0 };
  kernel_page_tables = true;
  yaos2_initialized = true;
}

abbrev two_pages : Palloc
two_pages = put_back 0xc010_2000 (put_back 0xc010_1000 no_pages)

abbrev free : List ℕ
free = 0xc010_2000 ∷ 0xc010_1000 ∷ []

two_pages-IsPalloc : IsPalloc two_pages free
two_pages-IsPalloc =
    put_back-IsPalloc (put_back 0xc010_1000 no_pages) 0xc010_2000 (0xc010_1000 ∷ [])
      (put_back-IsPalloc no_pages 0xc010_1000 []
        (record { tables = refl; above_null = omega arith; free = refl; counted = refl })
        (omega arith, omega arith) (λ h. h))
      (omega arith, omega arith) (λ h. elim h [ inl e ↦ absurd (omega arith) | inr n ↦ n ])

abbrev regions : List VmRegion
regions =
    record { vbase = 0xc010_0000; pbase = 0x10_0000; size = 0x3000; is_static = true; pflags = 0 }
    ∷ []

-- The directory is the page at 0x100000.
abbrev machine : Machine
machine = record {
  vm_map = regions;
  phys_kernel_pd = 0;
  palloc_lock_held = false;
  pages = two_pages;
  memory = λ a. 0;
}

no_table : (i : ℕ) → table (λ a. 0) 0x10_0000 i ≡ 0
unfolding load32
no_table i = refl

page-IsSpare : (v : ℕ) → Has v free → IsSpare 0x10_0000 machine (frame machine v)
unfolding vm_is_static_p
page-IsSpare v (inl e) =
    subst (λ x. IsSpare 0x10_0000 machine (frame machine x)) (sym e)
      (record {
        aligned = refl;
        positive = omega arith;
        word = omega arith;
        static = refl;
        not_directory = omega arith;
        not_table = λ i lt z. absurd (omega (arith, no_table i));
      })
page-IsSpare v (inr (inl e)) =
    subst (λ x. IsSpare 0x10_0000 machine (frame machine x)) (sym e)
      (record {
        aligned = refl;
        positive = omega arith;
        word = omega arith;
        static = refl;
        not_directory = omega arith;
        not_table = λ i lt z. absurd (omega (arith, no_table i));
      })
page-IsSpare v (inr (inr x)) = elim x [ ]

machine-IsSpace : IsSpace 0x10_0000 machine free
unfolding vm_is_static_p
machine-IsSpace = record {
  unlocked = refl;
  pages = two_pages-IsPalloc;
  bytes = λ a. omega arith;
  aligned = refl;
  static = refl;
  table_static = λ i lt ne. absurd (ne (no_table i));
  not_directory = λ i lt ne. absurd (ne (no_table i));
  distinct = λ i j lt lt' ne. absurd (ne (no_table i));
  spare = page-IsSpare;
}

paging_map-paging_get_example :
    (s' : Machine) × (paging_map 0x10_0000 0x40_1234 0x10_2000 7 machine ≡ ok s')
    × ((a g : ℕ)
        → a < 2 ^ 32
        → paging_get 0x10_0000 a machine ≡ ok g
        → paging_get 0x10_0000 a s'
          ≡ ok (if mask_to_page a == mask_to_page 0x40_1234 then mask_to_page 0x10_2000 else g))
unfolding load32
paging_map-paging_get_example =
    paging_map-paging_get 0x10_0000 0x40_1234 0x10_2000 7 free machine (omega arith) (omega arith)
      (omega arith) machine-IsSpace refl refl (inr (omega arith))

-- A process with its break at 0x401000
abbrev process : Space
process = record {
  arch = record {
    pd = 0x10_0000;
    vfrom = 0;
    vto = 0;
    vstack = 0;
    stack_size = 0;
    venvironment = 0;
    vbreak = 0x40_1000;
    cur_vbreak = 0x40_1000;
  };
  machine = machine;
}

proc_brk-maps_example :
    (s' : Space) × (left : List ℕ) × (proc_brk 0x40_1800 process ≡ ok (s', true))
    × IsSpace 0x10_0000 s'.machine left
    × (s'.arch.cur_vbreak ≡ 0x40_1800)
    × ((a : ℕ)
        → mask_to_page 0x40_1000 ≤ a
        → a < mask_to_page 0x40_1800 + 4096
        → (g : ℕ) × (paging_get 0x10_0000 a s'.machine ≡ ok g) × (g ≢ 0))
    × ((a g : ℕ)
        → a < 2 ^ 32
        → paging_get 0x10_0000 a machine ≡ ok g
        → g ≢ 0
        → paging_get 0x10_0000 a s'.machine ≡ ok g)
unfolding load32 vm_get_pflags palloc_get_remaining
proc_brk-maps_example =
    proc_brk-maps 0x40_1800 process free machine-IsSpace (omega arith) (omega arith) (omega arith)
      refl (omega arith) (λ a low high. refl) (omega arith)

-- The same machine once the page at 0x101000 is mapped at 0x400000
mapping :
    (s' : Machine) × (paging_map 0x10_0000 0x40_0000 0x10_1000 7 machine ≡ ok s')
    × Maps 0x10_0000 0x40_0000 0x10_1000 7 machine free s'
unfolding load32
mapping =
    paging_map-Maps 0x10_0000 0x40_0000 0x10_1000 7 (omega arith) (omega arith) (omega arith) refl
      free machine machine-IsSpace refl (inr (omega arith))

abbrev mapped : Machine
mapped = mapping.0

Takes-Has : {v w : ℕ} {left : List ℕ} → Takes (v ∷ w ∷ []) left → Has w left
Takes-Has nothing = inr (inl refl)
Takes-Has one = inl refl

mapped-IsSpare : IsSpare 0x10_0000 mapped 0x10_1000
mapped-IsSpare =
    subst (λ f. IsSpare 0x10_0000 mapped f) frame_here
      (mapping.2.space.spare 0xc010_1000 (Takes-Has mapping.2.takes))
  where
    frame_here : frame mapped 0xc010_1000 ≡ 0x10_1000
    frame_here = mapping.2.frames 0xc010_1000

data_frame :
    (a : ℕ) → 0x40_0000 ≤ a → a < 0x40_0000 + 3 → frame_of mapped.memory 0x10_0000 a ≡ 0x10_1000
data_frame a low high =
    ap pte_get_paddr (mapping.2.entry a (omega arith)) ∙ here (mask_to_page a) (omega arith)
  where
    here :
        (x : ℕ)
        → x ≡ 0x40_0000
        → pte_get_paddr (
            if x == mask_to_page 0x40_0000
            then pte_construct 0x10_1000 (with_present 7)
            else walk machine.memory 0x10_0000 a)
          ≡ 0x10_1000
    here x e = rw (eq→== x 0x40_0000 e) refl

mapped-IsData : IsData 0x10_0000 0x40_0000 (0x40_0000 + 3) mapped
mapped-IsData = record {
  mapped = λ a low high z. absurd (omega (arith, data_frame a low high));
  static = λ a low high.
      subst (λ f. vm_is_static_p mapped.vm_map f ≡ true) (sym (data_frame a low high))
        mapped-IsSpare.static;
  not_directory = λ a low high z. absurd (omega (arith, data_frame a low high));
  not_table = λ a i low high lt z. mapped-IsSpare.not_table i lt (z ∙ data_frame a low high);
  own = λ a b low high low' high' e. omega arith;
}

vmread-vmwrite_example :
    (s' : Machine) × (vmwrite 0x10_0000 0x40_0000 (1 ∷ 2 ∷ 3 ∷ []) mapped ≡ ok s')
    × (vmread 0x10_0000 0x40_0000 3 s' ≡ ok (1 ∷ 2 ∷ 3 ∷ []))
    × ((q : ℕ)
        → ((a : ℕ) → 0x40_0000 ≤ a → a < 0x40_0000 + 3 → q ≢ phys mapped.memory 0x10_0000 a)
        → s'.memory q ≡ mapped.memory q)
    × ((a g : ℕ)
        → a < 2 ^ 32
        → paging_get 0x10_0000 a mapped ≡ ok g
        → paging_get 0x10_0000 a s' ≡ ok g)
vmread-vmwrite_example =
    vmread-vmwrite 0x10_0000 0x40_0000 (1 ∷ 2 ∷ 3 ∷ []) mapping.2.left mapped (omega arith)
      (omega arith, (omega arith, (omega arith, tt))) mapping.2.space mapped-IsData
