-- ===== src/Vfs/Writing.antt =====
-- kernel/kernel/syscall/file.c: the loop of `syscall_write`, on `vfs_file_write` of
-- kernel/kernel/vfs/file_ops.c. The write operation of a node is an argument.
use yetanotheros.Common.{
  ℕ, zero, suc, ◌+◌, ◌-◌, ◌%◌, ◌^◌, ◌≤◌, ◌≡◌, true, false, Option, none, some, List, [], ◌++◌, ◌==◌,
  length, take,
}
use yetanotheros.Buffer.Ring.{slice}
use yetanotheros.Vfs.Transfer.{batch_size}

-- What writing to a node gives: how many bytes it took, or an error number.
pub data WriteResult : Type 0 where
  took : ℕ → WriteResult
  write_error : ℕ → WriteResult

-- `vfs_file_write` at an offset: the new offset, and what the node answers. The negative result of
-- an error is added to the offset too.
unfoldable pub vfs_file_write : (ℕ → List ℕ → WriteResult) → ℕ → List ℕ → ℕ × WriteResult
vfs_file_write write offset bytes = elim (length bytes == 0) [
  | true ↦ (offset, took 0)
  | false ↦ elim (write offset bytes) [
    | took n ↦ (offset + n, took n)
    | write_error e ↦ ((offset + (2 ^ 64 - e)) % 2 ^ 64, write_error e)
  ]
]

-- What the loop comes to: the offset of the file, the bytes that the node took, and the result,
-- where `none` is -EUNSPEC.
pub record WriteEnd : Type 0 where
  pub offset : ℕ
  pub sent : List ℕ
  pub result : Option ℕ

-- The loop. Each batch is read at `num_written`, which is the result of the last write.
unfoldable pub write_loop :
    ℕ → (ℕ → List ℕ → WriteResult) → (ℕ → ℕ) → ℕ → ℕ → List ℕ → ℕ → ℕ → ℕ → Option WriteEnd
unfolding vfs_file_write slice
write_loop zero write mem buf offset sent count num_written ret = none
write_loop (suc fuel) write mem buf offset sent count num_written ret = elim (count == 0) [
  | true ↦ some (record { offset = offset; sent = sent; result = some ret })
  | false ↦
      let kbuf = slice mem (buf + num_written) (batch_size count) in
      let r = vfs_file_write write offset kbuf in
      elim r.1 [
        | write_error e ↦ some (record { offset = r.0; sent = sent; result = none })
        | took n ↦ elim (n == 0) [
          | true ↦ some (record { offset = r.0; sent = sent; result = some ret })
          | false ↦ write_loop fuel write mem buf r.0 (sent ++ take n kbuf) (count - n) n (ret + n)
        ]
      ]
]

-- The transfer of `syscall_write`, to an open file
unfoldable pub syscall_write_file :
    (ℕ → List ℕ → WriteResult) → ℕ → (ℕ → ℕ) → ℕ → ℕ → Option WriteEnd
unfolding write_loop
syscall_write_file write offset mem buf count =
    write_loop (suc count) write mem buf offset [] count 0 0

-- A node takes no more than it is offered.
abbrev pub TakesUpTo : (ℕ → List ℕ → WriteResult) → Type 0
TakesUpTo write =
    (offset : ℕ) (bytes : List ℕ) (n : ℕ) → write offset bytes ≡ took n → n ≤ length bytes

-- Where a transfer ends that stood at `offset` with `count` bytes to go, `sent` and `ret`
abbrev pub EndsWithin : ℕ → List ℕ → ℕ → ℕ → WriteEnd → Option ℕ → Type 0
EndsWithin offset sent count ret w none =
    (length sent ≤ length w.sent) × (length w.sent ≤ length sent + count)
EndsWithin offset sent count ret w (some k) =
    (ret ≤ k)
    × (k ≤ ret + count)
    × (length w.sent + ret ≡ length sent + k)
    × (w.offset + ret ≡ offset + k)

-- A write of one batch moves the offset behind the bytes that were taken.
abbrev Took : ℕ → ℕ → ℕ × WriteResult → Type 0
Took offset num (offset', took n) = (offset' ≡ offset + n) × (n ≤ num)
Took offset num (offset', write_error e) = Unit {0}
