-- ===== src/Process/Files.antt =====
-- kernel/kernel/proc.c: the table of opened files. Every operation needs the process's mutex.
use yetanotheros.Common.{
  ℕ, suc, ◌+◌, ◌≡◌, ◌≢◌, ◌<◌, refl, sym, ap, subst, Bool, true, false, Option, none, some, List, [],
  ◌∷◌, if◌then◌else◌, ltb, length, get_elem?, set, get_elem?-set_self, get_elem?-set_ne, length-set,
  arith, lt→ltb, eq_of_some,
}
use yetanotheros.Common.Outcome.{Outcome, ok, ◌>>◌, kassert, ok-injective}

abbrev pub proc_max_files : ℕ
proc_max_files = 16

-- `opened_files`, each a pointer to a file or null, and whether the caller holds the mutex.
-- Descriptors are not negative here: the functions refuse negative ones as they refuse large ones.
pub record Files : Type 0 where
  pub opened_files : List (Option ℕ)
  pub mutex_held : Bool

-- `opened_files[fd]`
abbrev pub slot : Option (Option ℕ) → Option ℕ
slot none = none
slot (some f) = f

unfoldable pub first_vacant : ℕ → List (Option ℕ) → Option ℕ
first_vacant fd [] = none
first_vacant fd (none ∷ fs) = some fd
first_vacant fd (some f ∷ fs) = first_vacant (suc fd) fs

-- `proc_get_vacant_fd`; `none` is -EUNSPEC.
unfoldable pub proc_get_vacant_fd : Files → Outcome (Option ℕ)
unfolding first_vacant
proc_get_vacant_fd s = kassert s.mutex_held >> ok (first_vacant 0 s.opened_files)

-- `proc_get_file`
unfoldable pub proc_get_file : Files → ℕ → Outcome (Option ℕ)
proc_get_file s fd =
    kassert s.mutex_held
    >> (if ltb fd proc_max_files then ok (slot (get_elem? s.opened_files fd)) else ok none)

abbrev pub is_null : Option ℕ → Bool
is_null none = true
is_null (some f) = false

-- `proc_bind`; `none` is -EUNSPEC.
unfoldable pub proc_bind : Files → ℕ → ℕ → Outcome (Files × Option ℕ)
proc_bind s fd f =
    kassert s.mutex_held
    >> (if ltb fd proc_max_files
        then (if is_null (slot (get_elem? s.opened_files fd))
            then ok (record s { opened_files = set s.opened_files fd (some f) }, some fd)
            else ok (s, none))
        else ok (s, none))

-- `proc_unbind`
unfoldable pub proc_unbind : Files → ℕ → Outcome (Files × Option ℕ)
proc_unbind s fd =
    kassert s.mutex_held
    >> (if ltb fd proc_max_files
        then ok (
          record s { opened_files = set s.opened_files fd none },
          slot (get_elem? s.opened_files fd),
        )
        else ok (s, none))

pub record IsTable (s : Files) : Type 0 where
  pub held : s.mutex_held ≡ true
  pub full_size : length s.opened_files ≡ proc_max_files

-- A vacant descriptor is in range and its slot is empty, and every slot below it is taken.
first_vacant-some :
    (base : ℕ) (fs : List (Option ℕ)) {fd : ℕ}
    → first_vacant base fs ≡ some fd
    → (i : ℕ) × (fd ≡ base + i) × (i < length fs) × (get_elem? fs i ≡ some none)
unfolding first_vacant
first_vacant-some base [] e = cc
first_vacant-some base (none ∷ fs) e = (0, omega (arith, eq_of_some e), omega arith, refl)
first_vacant-some base (some f ∷ fs) e =
    let (i, at, lt, there) = first_vacant-some (suc base) fs e in
    (suc i, omega (arith, at), omega (arith, lt), there)

bind_lem :
    (s : Files) (fd f : ℕ)
    → s.mutex_held ≡ true
    → fd < proc_max_files
    → get_elem? s.opened_files fd ≡ some none
    → proc_bind s fd f ≡ ok (record s { opened_files = set s.opened_files fd (some f) }, some fd)
unfolding proc_bind
bind_lem s fd f held lt empty = rw (ap kassert held, lt→ltb fd proc_max_files lt, empty) refl

unbind_lem :
    (s : Files) (fd f : ℕ)
    → s.mutex_held ≡ true
    → fd < proc_max_files
    → get_elem? s.opened_files fd ≡ some (some f)
    → proc_unbind s fd ≡ ok (record s { opened_files = set s.opened_files fd none }, some f)
unfolding proc_unbind
unbind_lem s fd f held lt there = rw (ap kassert held, lt→ltb fd proc_max_files lt, there) refl

get_lem :
    (s : Files) (fd : ℕ) {x : Option ℕ}
    → s.mutex_held ≡ true
    → fd < proc_max_files
    → get_elem? s.opened_files fd ≡ some x
    → proc_get_file s fd ≡ ok x
unfolding proc_get_file
get_lem s fd held lt there = rw (ap kassert held, lt→ltb fd proc_max_files lt, there) refl

get-other :
    (s : Files) (fd f other : ℕ)
    → other ≢ fd
    → proc_get_file (record s { opened_files = set s.opened_files fd (some f) }) other
      ≡ proc_get_file s other
unfolding proc_get_file
get-other s fd f other ne =
    ap (λ o. kassert s.mutex_held >> (if ltb other proc_max_files then ok (slot o) else ok none))
      (get_elem?-set_ne s.opened_files fd other (some f) (λ e. ne (sym e)))

vacant_lem :
    (s : Files) (fd : ℕ)
    → IsTable s
    → proc_get_vacant_fd s ≡ ok (some fd)
    → (fd < proc_max_files) × (get_elem? s.opened_files fd ≡ some none)
unfolding proc_get_vacant_fd
vacant_lem s fd i e =
    let (k, at, lt, there) =
      first_vacant-some 0 s.opened_files {fd = fd} (ok-injective (rw (ap kassert i.held) at e)) in
    (
      omega (arith, at, lt, i.full_size),
      subst (λ n. get_elem? s.opened_files n ≡ some none) (omega (arith, at)) there,
    )

-- With the mutex held, the descriptor that `proc_get_vacant_fd` returns can be bound: `proc_bind`
-- returns it, then `proc_get_file` finds the file there, every other descriptor is unchanged, and
-- `proc_unbind` gives the file back and leaves the descriptor empty.
pub vacant-bind-get-unbind :
    (s : Files) (fd f : ℕ)
    → IsTable s
    → proc_get_vacant_fd s ≡ ok (some fd)
    → (s1 : Files) × (s2 : Files) × (proc_bind s fd f ≡ ok (s1, some fd))
      × (proc_get_file s1 fd ≡ ok (some f))
      × ((other : ℕ) → other ≢ fd → proc_get_file s1 other ≡ proc_get_file s other)
      × (proc_unbind s1 fd ≡ ok (s2, some f))
      × (proc_get_file s2 fd ≡ ok none)
vacant-bind-get-unbind s fd f i e =
    let (lt, empty) = vacant_lem s fd i e in
    let s1 : Files = record s { opened_files = set s.opened_files fd (some f) } in
    let s2 : Files = record s1 { opened_files = set s1.opened_files fd none } in
    let in_range : fd < length s.opened_files = omega (arith, lt, i.full_size) in
    let bound : get_elem? s1.opened_files fd ≡ some (some f) =
      get_elem?-set_self s.opened_files fd (some f) in_range in
    (
      s1,
      s2,
      bind_lem s fd f i.held lt empty,
      get_lem s1 fd i.held lt bound,
      λ other ne. get-other s fd f other ne,
      unbind_lem s1 fd f i.held lt bound,
      get_lem s2 fd i.held lt (
          get_elem?-set_self s1.opened_files fd none
            (omega (arith, in_range, length-set s.opened_files fd (some f)))),
    )
