-- ===== src/Vfs/SeekLaws.antt =====
-- Calls of `syscall_lseek` and `syscall_read` on one open file, one after the other.
use yetanotheros.Common.{
  ℕ, suc, ◌+◌, ◌-◌, ◌%◌, ◌^◌, ◌<◌, ◌≡◌, ◌≢◌, refl, ◌∙◌, true, some, arith, ne→==,
}
use yetanotheros.Common.Outcome.{ok, bind_ok}
use yetanotheros.Common.Store.{write_self, write_ne}
use yetanotheros.Process.Files.{proc_get_file}
use yetanotheros.Vfs.File.{
  File, FileTable, FileNode, vfs_file_dup, vfs_close, with_file-some, put_file,
}
use yetanotheros.Vfs.Syscalls.{User, proc_lock, proc_unlock, read_file, syscall_read}
use yetanotheros.Vfs.Transfer.{ReadEnd}
use yetanotheros.Vfs.Reading.{EndsRight, syscall_read_file-EndsRight}
use yetanotheros.Vfs.Seek.{vfs_file_seek, seek_file, is_whence, seek_answer, syscall_lseek}

-- File object `f` is at `offset` in `t'`, and all else is as in `t`, where the object is `x`.
pub record IsMoved (t t' : FileTable) (f : ℕ) (x : File) (offset : ℕ) : Type 0 where
  pub here : t'.file f ≡ some (record { node = x.node; ref = x.ref; offset = offset })
  pub listed : t'.file_list ≡ t.file_list
  pub kept : t'.put_back ≡ t.put_back
  pub others : (q : ℕ) → q ≢ f → t'.file q ≡ t.file q

-- A file object that somebody else holds outlives a close.
module _ (t : FileTable) (f : ℕ) (x : File) (opened : t.file f ≡ some x) (referenced : 0 < x.ref)
    (room : suc x.ref < 2 ^ 32) where
  abbrev pub held : FileTable
  held = put_file t f (record x { ref = (x.ref + 1) % 2 ^ 32 })

  pub dup-held : vfs_file_dup f t ≡ ok held
  unfolding vfs_file_dup
  dup-held = with_file-some t f _ opened

  held-file : held.file f ≡ some (record x { ref = (x.ref + 1) % 2 ^ 32 })
  held-file = write_self t.file f _

  abbrev moved_to : ℕ → FileTable
  moved_to offset =
      put_file held f (record { node = x.node; ref = (x.ref + 1) % 2 ^ 32; offset = offset })

  pub close-IsMoved :
      (offset : ℕ)
      → (t' : FileTable) × (vfs_close f (moved_to offset) ≡ ok t') × IsMoved t t' f x offset
  unfolding vfs_close
  close-IsMoved offset =
      let dropped : ((x.ref + 1) % 2 ^ 32 + (2 ^ 32 - 1)) % 2 ^ 32 ≡ x.ref = omega arith in
      (
        put_file (moved_to offset) f (record { node = x.node; ref = x.ref; offset = offset }),
        with_file-some (moved_to offset) f _ (write_self held.file f _)
            ∙ rw (dropped, ne→== x.ref 0 (omega arith)) refl,
        record {
          here = write_self (moved_to offset).file f _;
          listed = refl;
          kept = refl;
          others = λ q ne.
              write_ne (moved_to offset).file f _ q ne
              ∙ write_ne held.file f _ q ne
              ∙ write_ne t.file f _ q ne;
        },
      )

  pub seek_file-IsMoved :
      (nodes : ℕ → FileNode) (offset whence : ℕ)
      → (t' : FileTable) × (seek_file nodes f offset whence held
          ≡ ok (t', vfs_file_seek (nodes x.node).size x.offset offset whence))
        × IsMoved t t' f x (vfs_file_seek (nodes x.node).size x.offset offset whence)
  unfolding seek_file
  seek_file-IsMoved nodes offset whence =
      let (t', closes, moved) =
        close-IsMoved (vfs_file_seek (nodes x.node).size x.offset offset whence) in
      (t', with_file-some held f _ held-file ∙ bind_ok _ closes, moved)

  pub read_file-IsMoved :
      (n : FileNode) (mem : ℕ → ℕ) (buf count : ℕ)
      → (t' : FileTable) × (r : ReadEnd) × (read_file n f t mem buf count ≡ ok (t', r))
        × EndsRight n x.offset mem buf count 0 r
        × IsMoved t t' f x r.offset
  unfolding read_file
  read_file-IsMoved n mem buf count =
      let (r, runs, right) = syscall_read_file-EndsRight n x.offset mem buf count in
      let (t', closes, moved) = close-IsMoved r.offset in
      (
        t',
        r,
        bind_ok _ dup-held ∙ with_file-some held f _ held-file ∙ rw runs (bind_ok _ closes),
        right,
        moved,
      )

module _ (nodes : ℕ → FileNode) (fd : ℕ) (u : User) {f : ℕ} {x : File}
    (found : proc_get_file (proc_lock u.files) fd ≡ ok (some f))
    (open_file : u.table.file f ≡ some x) (referenced : 0 < x.ref) (room : suc x.ref < 2 ^ 32) where
  -- Every kind of seek moves the file, also if the answer is -EOVERFLOW.
  pub syscall_lseek-IsMoved :
      (offset whence : ℕ)
      → is_whence whence ≡ true
      → (t' : FileTable) × (syscall_lseek nodes fd offset whence u
          ≡ ok (
            record { files = proc_unlock u.files; table = t' },
            seek_answer (vfs_file_seek (nodes x.node).size x.offset offset whence),
          ))
        × IsMoved u.table t' f x (vfs_file_seek (nodes x.node).size x.offset offset whence)
  unfolding syscall_lseek
  syscall_lseek-IsMoved offset whence valid =
      let (t', seeks, moved) =
        seek_file-IsMoved u.table f x open_file referenced room nodes offset whence in
      (
        t',
        rw valid (
            bind_ok _ found
            ∙ bind_ok _ (dup-held u.table f x open_file referenced room)
            ∙ bind_ok _ seeks),
        moved,
      )

  pub syscall_read-IsMoved :
      (buf count : ℕ) (mem : ℕ → ℕ)
      → (t' : FileTable) × (r : ReadEnd) × (syscall_read nodes fd buf count mem u
          ≡ ok (record { files = proc_unlock u.files; table = t' }, r.memory, r.result))
        × EndsRight (nodes x.node) x.offset mem buf count 0 r
        × IsMoved u.table t' f x r.offset
  unfolding syscall_read
  syscall_read-IsMoved buf count mem =
      let (t', r, reads, right, moved) =
        read_file-IsMoved u.table f x open_file referenced room (nodes x.node) mem buf count in
      (
        t',
        r,
        bind_ok _ found ∙ with_file-some u.table f _ open_file ∙ bind_ok _ reads,
        right,
        moved,
      )
