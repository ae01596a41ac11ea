-- ===== src/Vfs/Syscalls.antt =====
-- kernel/kernel/syscall/file.c: the calls that a user program makes, on its table of descriptors and
-- the file objects. The copies between the address spaces are left to the loop of a transfer.
use yetanotheros.Common.{ℕ, ◌≡◌, ◌∙◌, Bool, true, false, Option, none, some}
use yetanotheros.Common.Outcome.{Outcome, ok, panic, ◌>>=◌, bind_ok}
use yetanotheros.Process.Files.{Files, proc_get_vacant_fd, proc_bind, proc_get_file, proc_unbind}
use yetanotheros.Vfs.File.{
  FileTable, FileNode, vfs_open, vfs_file_dup, vfs_close, with_file, put_file,
}
use yetanotheros.Vfs.Lifetime.{IsClosed, vfs_open-vfs_close}
use yetanotheros.Vfs.Transfer.{ReadEnd, syscall_read_file}

-- A process's descriptors and all file objects
pub record User : Type 0 where
  pub files : Files
  pub table : FileTable

abbrev pub proc_lock : Files → Files
proc_lock s = record s { mutex_held = true }

abbrev pub proc_unlock : Files → Files
proc_unlock s = record s { mutex_held = false }

-- What `syscall_open` does with an open file; `none` is -EUNSPEC.
unfoldable pub bind_file : ℕ → FileTable → Files → Outcome (User × Option ℕ)
bind_file f table files = proc_get_vacant_fd files >>= λ vacant. elim vacant [
  | none ↦ vfs_close f table >>= λ t. ok (record { files = proc_unlock files; table = t }, none)
  | some fd ↦
      proc_bind files fd f >>= λ r. ok (record { files = proc_unlock r.0; table = table }, some fd)
]

-- `syscall_open`, for the node that `vfs_get` gave and the address of a new file object
unfoldable pub syscall_open : ℕ → Option ℕ → User → Outcome (User × Option ℕ)
unfolding bind_file vfs_open
syscall_open address node u =
    let opened = vfs_open address node u.table in
    elim opened.1 [ none ↦ ok (u, none) | some f ↦ bind_file f opened.0 (proc_lock u.files) ]

-- `syscall_close`: whether it succeeds
unfoldable pub syscall_close : ℕ → User → Outcome (User × Bool)
syscall_close fd u = proc_unbind (proc_lock u.files) fd >>= λ r. elim r.1 [
  | none ↦ ok (record { files = proc_unlock r.0; table = u.table }, false)
  | some f ↦ vfs_close f u.table >>= λ t. ok (record { files = proc_unlock r.0; table = t }, true)
]

-- The transfer of `syscall_read`, on a file object that is duplicated meanwhile: the object keeps
-- the new offset. `none` is -EUNSPEC.
unfoldable pub read_file :
    FileNode → ℕ → FileTable → (ℕ → ℕ) → ℕ → ℕ → Outcome (FileTable × ReadEnd)
unfolding syscall_read_file
read_file n f table mem buf count = vfs_file_dup f table >>= λ t. with_file t f λ x.
    elim (syscall_read_file n x.offset mem buf count) [
      | none ↦ panic
      | some r ↦ vfs_close f (put_file t f (record x { offset = r.offset })) >>= λ t'. ok (t', r)
    ]

-- `syscall_read`, where the node of a file object is given by `nodes`
unfoldable pub syscall_read :
    (ℕ → FileNode) → ℕ → ℕ → ℕ → (ℕ → ℕ) → User → Outcome (User × (ℕ → ℕ) × Option ℕ)
unfolding read_file
syscall_read nodes fd buf count mem u = proc_get_file (proc_lock u.files) fd >>= λ found.
    elim found [
      | none ↦ ok (record u { files = proc_unlock u.files }, mem, none)
      | some f ↦ with_file u.table f λ x. read_file (nodes x.node) f u.table mem buf count >>= λ r.
          ok (record { files = proc_unlock u.files; table = r.0 }, r.1.memory, r.1.result)
    ]

-- If a process has no vacant descriptor, opening a file fails with -EUNSPEC and leaves nothing
-- behind: its descriptors are as before, the file object is gone again, and its node was put back.
pub syscall_open-full :
    (address node : ℕ) (u : User)
    → proc_get_vacant_fd (proc_lock u.files) ≡ ok none
    → (t : FileTable) × (syscall_open address (some node) u
        ≡ ok (record { files = proc_unlock (proc_lock u.files); table = t }, none))
      × IsClosed u.table t address node
unfolding syscall_open bind_file
syscall_open-full address node u full =
    let (t, closes, closed) = vfs_open-vfs_close u.table address node in
    (t, bind_ok _ full ∙ bind_ok _ closes, closed)
