-- ===== src/Vfs/Lifetime.antt =====
-- How long a file object lives: until it has been closed once more than it was duplicated.
use yetanotheros.Common.{
  ℕ, zero, suc, ◌+◌, ◌-◌, ◌%◌, ◌^◌, ◌<◌, ◌≡◌, ◌≢◌, refl, ap, ◌∙◌, none, some, List, [], ◌∷◌, length,
  arith, eq→==, ne→==,
}
use yetanotheros.Common.Outcome.{Outcome, ok, ◌>>=◌, bind_ok}
use yetanotheros.Common.Store.{write, write_self, write_ne}
use yetanotheros.Vfs.File.{
  FileTable, put_file, with_file-some, vfs_open, vfs_file_dup, vfs_close, remove_file,
}

-- What holders do with a file object.
pub data Use : Type 0 where
  dup close : Use

abbrev pub use_once : Use → ℕ → FileTable → Outcome FileTable
use_once Use.dup f s = vfs_file_dup f s
use_once Use.close f s = vfs_close f s

unfoldable pub use_all : List Use → ℕ → FileTable → Outcome FileTable
use_all [] f s = ok s
use_all (u ∷ us) f s = use_once u f s >>= use_all us f

-- With so many references at first, the last call drops the last one, and no earlier call does.
abbrev pub Balanced : ℕ → List Use → Type 0
Balanced zero [] = Unit {0}
Balanced zero (u ∷ us) = ⊥
Balanced (suc ref) [] = ⊥
Balanced (suc ref) (Use.dup ∷ us) = Balanced (suc (suc ref)) us
Balanced (suc ref) (Use.close ∷ us) = Balanced ref us

-- File `f` is open in `s1`, and all else is as in `s`.
record IsOpen (s s1 : FileTable) (f node ref : ℕ) : Type 0 where
  here : s1.file f ≡ some (record { node = node; ref = ref; offset = 0 })
  listed : s1.file_list ≡ f ∷ s.file_list
  kept : s1.put_back ≡ s.put_back
  others : (q : ℕ) → q ≢ f → s1.file q ≡ s.file q

-- The object of file `f` is gone, its node was put back once, and all else is as in `s`.
pub record IsClosed (s s1 : FileTable) (f node : ℕ) : Type 0 where
  pub gone : s1.file f ≡ none
  pub listed : s1.file_list ≡ s.file_list
  pub put : s1.put_back ≡ node ∷ s.put_back
  pub others : (q : ℕ) → q ≢ f → s1.file q ≡ s.file q

module _ (s s1 : FileTable) (f node : ℕ) where
  dup-IsOpen :
      (ref : ℕ)
      → IsOpen s s1 f node ref
      → suc ref < 2 ^ 32
      → (s2 : FileTable) × (vfs_file_dup f s1 ≡ ok s2) × IsOpen s s2 f node (suc ref)
  unfolding vfs_file_dup
  dup-IsOpen ref o small = (
    put_file s1 f (record { node = node; ref = (ref + 1) % 2 ^ 32; offset = 0 }),
    with_file-some s1 f _ o.here,
    record {
      here =
          write_self s1.file f _
          ∙ ap (λ r. some (record { node = node; ref = r; offset = 0 })) (omega arith);
      listed = o.listed;
      kept = o.kept;
      others = λ q ne. write_ne s1.file f _ q ne ∙ o.others q ne;
    },
  )

  close-IsOpen :
      (ref : ℕ)
      → IsOpen s s1 f node (suc (suc ref))
      → suc (suc ref) < 2 ^ 32
      → (s2 : FileTable) × (vfs_close f s1 ≡ ok s2) × IsOpen s s2 f node (suc ref)
  unfolding vfs_close
  close-IsOpen ref o small =
      let dropped : (suc (suc ref) + (2 ^ 32 - 1)) % 2 ^ 32 ≡ suc ref = omega arith in
      (
        put_file s1 f (record { node = node; ref = suc ref; offset = 0 }),
        with_file-some s1 f _ o.here ∙ rw (dropped, ne→== (suc ref) 0 (omega arith)) refl,
        record {
          here = write_self s1.file f _;
          listed = o.listed;
          kept = o.kept;
          others = λ q ne. write_ne s1.file f _ q ne ∙ o.others q ne;
        },
      )

  close-IsClosed :
      IsOpen s s1 f node 1 → (s2 : FileTable) × (vfs_close f s1 ≡ ok s2) × IsClosed s s2 f node
  unfolding vfs_close remove_file
  close-IsClosed o = (
    record {
      file = write s1.file f none;
      file_list = remove_file f s1.file_list;
      put_back = node ∷ s1.put_back;
    },
    with_file-some s1 f _ o.here,
    record {
      gone = write_self s1.file f none;
      listed = ap (remove_file f) o.listed ∙ rw (eq→== f f refl) refl;
      put = ap (λ l. node ∷ l) o.kept;
      others = λ q ne. write_ne s1.file f none q ne ∙ o.others q ne;
    },
  )

use_all-IsClosed :
    (us : List Use) (s s1 : FileTable) (f node ref : ℕ)
    → IsOpen s s1 f node (suc ref)
    → Balanced (suc ref) us
    → suc ref + length us < 2 ^ 32
    → (s2 : FileTable) × (use_all us f s1 ≡ ok s2) × IsClosed s s2 f node
unfolding use_all
use_all-IsClosed [] s s1 f node ref o balanced small = absurd balanced
use_all-IsClosed (Use.dup ∷ us) s s1 f node ref o balanced small =
    let (s2, runs, o2) = dup-IsOpen s s1 f node (suc ref) o (omega arith) in
    let (s3, rest, closed) = use_all-IsClosed us s s2 f node (suc ref) o2 balanced (omega arith) in
    (s3, bind_ok (use_all us f) runs ∙ rest, closed)
use_all-IsClosed (Use.close ∷ us) s s1 f node (suc ref) o balanced small =
    let (s2, runs, o2) = close-IsOpen s s1 f node ref o (omega arith) in
    let (s3, rest, closed) = use_all-IsClosed us s s2 f node ref o2 balanced (omega arith) in
    (s3, bind_ok (use_all us f) runs ∙ rest, closed)
use_all-IsClosed (Use.close ∷ []) s s1 f node zero o balanced small =
    let (s2, runs, closed) = close-IsClosed s s1 f node o in
    (s2, bind_ok (use_all [] f) runs, closed)
use_all-IsClosed (Use.close ∷ (u ∷ us)) s s1 f node zero o balanced small = absurd balanced

opened-IsOpen : (s : FileTable) (f node : ℕ) → IsOpen s (vfs_open f (some node) s).0 f node 1
unfolding vfs_open
opened-IsOpen s f node = record {
  here = write_self s.file f _;
  listed = refl;
  kept = refl;
  others = λ q ne. write_ne s.file f _ q ne;
}

-- Opening and closing
pub vfs_open-vfs_close :
    (s : FileTable) (f node : ℕ)
    → (s2 : FileTable) × (vfs_close f (vfs_open f (some node) s).0 ≡ ok s2) × IsClosed s s2 f node
vfs_open-vfs_close s f node =
    close-IsClosed s (vfs_open f (some node) s).0 f node (opened-IsOpen s f node)

-- A file that is opened and then duplicated and closed in any order lives exactly until it has been
-- closed once more than it was duplicated: every call until then returns, and after the last one
-- its object is gone, it is off the list of files, its node was put back once, and the other files
-- are as before. There are fewer than 2 ^ 32 calls.
pub vfs_open-use_all-IsClosed :
    (us : List Use) (s : FileTable) (f node : ℕ)
    → Balanced 1 us
    → 1 + length us < 2 ^ 32
    → (s2 : FileTable) × (use_all us f (vfs_open f (some node) s).0 ≡ ok s2) × IsClosed s s2 f node
vfs_open-use_all-IsClosed us s f node balanced small =
    use_all-IsClosed us s (vfs_open f (some node) s).0 f node 0 (opened-IsOpen s f node) balanced
      (omega arith)
