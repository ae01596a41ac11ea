-- ===== src/Vfs/File.antt =====
-- kernel/kernel/vfs/file.c and file_ops.c: file objects. The mutexes of the file list and of the
-- nodes make each call one step; a node is an interface.
use yetanotheros.Common.{
  ℕ, ◌+◌, ◌-◌, ◌%◌, ◌^◌, ◌≤◌, ◌≡◌, Option, none, some, List, [], ◌∷◌, ◌==◌, if◌then◌else◌, leb,
  length, refl,
}
use yetanotheros.Common.Outcome.{Outcome, ok, panic}
use yetanotheros.Common.Store.{write}

-- `struct file`
pub record File : Type 0 where
  pub node : ℕ
  pub ref : ℕ
  pub offset : ℕ

-- The file objects, by address, the list of the open ones, and the nodes that were put back
pub record FileTable : Type 0 where
  pub file : ℕ → Option File
  pub file_list : List ℕ
  pub put_back : List ℕ

abbrev pub with_file {ℓ} : {A : Type ℓ} → FileTable → ℕ → (File → Outcome A) → Outcome A
with_file s f go = elim (s.file f) [ none ↦ panic | some x ↦ go x ]

pub with_file-some {ℓ} :
    {A : Type ℓ} (s : FileTable) (f : ℕ) (go : File → Outcome A) {x : File}
    → s.file f ≡ some x
    → with_file s f go ≡ go x
with_file-some s f go e = rw (with_file, e) refl

abbrev pub put_file : FileTable → ℕ → File → FileTable
put_file s f x = record s { file = write s.file f (some x) }

-- `vfs_open` of the node that `vfs_get` gave, with the address that `kualloc` gave
unfoldable pub vfs_open : ℕ → Option ℕ → FileTable → FileTable × Option ℕ
vfs_open address none s = (s, none)
vfs_open address (some node) s = (
  record s {
    file = write s.file address (some (record { node = node; ref = 1; offset = 0 }));
    file_list = address ∷ s.file_list;
  },
  some address,
)

-- `vfs_file_dup` of a file that is not NULL
unfoldable pub vfs_file_dup : ℕ → FileTable → Outcome FileTable
vfs_file_dup f s = with_file s f λ x. ok (put_file s f (record x { ref = (x.ref + 1) % 2 ^ 32 }))

-- `LIST_REMOVE`
unfoldable pub remove_file : ℕ → List ℕ → List ℕ
remove_file f [] = []
remove_file f (g ∷ gs) = if g == f then gs else g ∷ remove_file f gs

-- `vfs_close` of a file that is not NULL
unfoldable pub vfs_close : ℕ → FileTable → Outcome FileTable
unfolding remove_file
vfs_close f s = with_file s f λ x.
    let ref : ℕ = (x.ref + (2 ^ 32 - 1)) % 2 ^ 32 in
    if ref == 0
    then ok (record {
      file = write s.file f none;
      file_list = remove_file f s.file_list;
      put_back = x.node ∷ s.put_back;
    })
    else ok (put_file s f (record x { ref = ref }))

-- What reading a node gives: bytes, or an error number.
pub data ReadResult : Type 0 where
  got : List ℕ → ReadResult
  read_error : ℕ → ReadResult

-- A node as `vfs_file_read` uses it, and what it promises: no more bytes than were asked for.
pub record FileNode : Type 0 where
  pub size : ℕ
  pub read : ℕ → ℕ → ReadResult
  pub reads_within : (off num : ℕ) (bytes : List ℕ) → read off num ≡ got bytes → length bytes ≤ num

-- `vfs_file_read` at an offset that is not negative: the new offset, and the bytes read. An error
-- moves the offset back, since the negative result is added to it; `foffset_t` has 64 bits, and a
-- negative value is written in two's complement.
unfoldable pub vfs_file_read : FileNode → ℕ → ℕ → ℕ × ReadResult
vfs_file_read n offset num =
    if num == 0
    then (offset, got [])
    else if leb n.size offset
    then (offset, got [])
    else elim (n.read (offset % 2 ^ 32) num) [
      | got bytes ↦ (offset + length bytes, got bytes)
      | read_error e ↦ ((offset + (2 ^ 64 - e)) % 2 ^ 64, read_error e)
    ]
