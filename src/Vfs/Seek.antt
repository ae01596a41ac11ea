-- ===== src/Vfs/Seek.antt =====
-- Seeking: `vfs_file_seek` of kernel/kernel/vfs/file_ops.c and `syscall_lseek` of
-- kernel/kernel/syscall/file.c. A `foffset_t` has 64 bits and is written in two's complement.
use yetanotheros.Common.{
  ℕ, ◌+◌, ◌-◌, ◌%◌, ◌^◌, Bool, ◌&&◌, ◌||◌, none, some, ◌==◌, if◌then◌else◌, ltb,
}
use yetanotheros.Common.Outcome.{Outcome, ok, ◌>>=◌}
use yetanotheros.Process.Files.{proc_get_file}
use yetanotheros.Vfs.File.{FileTable, FileNode, vfs_file_dup, vfs_close, with_file, put_file}
use yetanotheros.Vfs.Syscalls.{User, proc_lock, proc_unlock}

abbrev pub seek_set : ℕ
seek_set = 1

abbrev pub seek_cur : ℕ
seek_cur = 2

abbrev pub seek_end : ℕ
seek_end = 3

-- What `syscall_lseek` answers: the offset, -EPARAM, -EUNSPEC or -EOVERFLOW.
pub data SeekResult : Type 0 where
  sought : ℕ → SeekResult
  bad_whence no_file overflow : SeekResult

-- The offset that `vfs_file_seek` leaves in a file at offset `cur` of a node of `size` bytes
unfoldable pub vfs_file_seek : ℕ → ℕ → ℕ → ℕ → ℕ
vfs_file_seek size cur offset whence =
    if whence == seek_set
    then offset
    else if whence == seek_cur
    then (cur + offset) % 2 ^ 64
    else if whence == seek_end
    then (size + offset) % 2 ^ 64
    else cur

-- Greater than INT_MAX, as a signed number
unfoldable pub syscall_check_overflow : ℕ → Bool
syscall_check_overflow x = ltb (2 ^ 31 - 1) x && ltb x (2 ^ 63)

-- The call of `seek` on a file object that was duplicated, and the close after it
unfoldable pub seek_file : (ℕ → FileNode) → ℕ → ℕ → ℕ → FileTable → Outcome (FileTable × ℕ)
unfolding vfs_file_seek
seek_file nodes f offset whence table = with_file table f λ x.
    let ret : ℕ = vfs_file_seek (nodes x.node).size x.offset offset whence in
    vfs_close f (put_file table f (record x { offset = ret })) >>= λ t. ok (t, ret)

abbrev pub is_whence : ℕ → Bool
is_whence whence = (whence == seek_set) || (whence == seek_cur) || (whence == seek_end)

abbrev pub seek_answer : ℕ → SeekResult
seek_answer ret = if syscall_check_overflow ret then overflow else sought ret

-- `syscall_lseek`
unfoldable pub syscall_lseek : (ℕ → FileNode) → ℕ → ℕ → ℕ → User → Outcome (User × SeekResult)
unfolding seek_file syscall_check_overflow
syscall_lseek nodes fd offset whence u =
    if is_whence whence
    then (proc_get_file (proc_lock u.files) fd >>= λ found. elim found [
      | none ↦ ok (record u { files = proc_unlock u.files }, no_file)
      | some f ↦ vfs_file_dup f u.table >>= λ t. seek_file nodes f offset whence t >>= λ r.
          ok (record { files = proc_unlock u.files; table = r.0 }, seek_answer r.1)
    ])
    else ok (u, bad_whence)
