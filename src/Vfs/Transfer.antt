-- ===== src/Vfs/Transfer.antt =====
-- kernel/kernel/syscall/file.c: the loop of `syscall_read`. User memory is a function from addresses
-- to bytes; buffers end below the end of the address space.
use yetanotheros.Common.{
  ℕ, zero, suc, ◌+◌, ◌-◌, ◌/◌, ◌%◌, true, false, Option, none, some, List, [], ◌∷◌, ◌++◌, ◌==◌,
  if◌then◌else◌, ltb, length, take, drop, replicate,
}
use yetanotheros.Common.Store.{write}
use yetanotheros.Vfs.File.{FileNode, got, read_error, vfs_file_read}

abbrev pub syscall_file_buffer : ℕ
syscall_file_buffer = 512

abbrev pub batch_size : ℕ → ℕ
batch_size count =
    if ltb 0 (count / syscall_file_buffer) then syscall_file_buffer else count % syscall_file_buffer

-- Bytes written to memory from an address on, as `proc_vmwrite` does
unfoldable pub store_bytes : (ℕ → ℕ) → ℕ → List ℕ → ℕ → ℕ
store_bytes mem a [] = mem
store_bytes mem a (b ∷ bs) = store_bytes (write mem a b) (a + 1) bs

-- Bytes read into the front of the kernel's buffer
abbrev pub fill_kbuf : List ℕ → List ℕ → List ℕ
fill_kbuf kbuf bytes = bytes ++ drop (length bytes) kbuf

-- What the loop comes to: the offset of the file, user memory, and the result, where `none` is
-- -EUNSPEC.
pub record ReadEnd : Type 0 where
  pub offset : ℕ
  pub memory : ℕ → ℕ
  pub result : Option ℕ

-- The loop, in a round for each byte and one more. It writes whole batches to user memory.
unfoldable pub read_loop : ℕ → FileNode → ℕ → List ℕ → (ℕ → ℕ) → ℕ → ℕ → ℕ → Option ReadEnd
unfolding vfs_file_read store_bytes
read_loop zero n offset kbuf mem buf count ret = none
read_loop (suc fuel) n offset kbuf mem buf count ret = elim (count == 0) [
  | true ↦ some (record { offset = offset; memory = mem; result = some ret })
  | false ↦
      let r = vfs_file_read n offset (batch_size count) in
      elim r.1 [
        | read_error e ↦ some (record { offset = r.0; memory = mem; result = none })
        | got bytes ↦ elim (length bytes == 0) [
          | true ↦ some (record { offset = r.0; memory = mem; result = some ret })
          | false ↦
              read_loop fuel n r.0 (fill_kbuf kbuf bytes)
                (store_bytes mem (buf + ret) (take (batch_size count) (fill_kbuf kbuf bytes))) buf
                (count - length bytes) (ret + length bytes)
        ]
      ]
]

-- `syscall_read` of an open file: from a kernel buffer of zeros on
unfoldable pub syscall_read_file : FileNode → ℕ → (ℕ → ℕ) → ℕ → ℕ → Option ReadEnd
unfolding read_loop
syscall_read_file n offset mem buf count =
    read_loop (suc count) n offset (replicate syscall_file_buffer 0) mem buf count 0
