-- ===== src/Buffer/Ring.antt =====
-- kernel/kernel/exclusive_buffer.c, for a buffer that does not grow. The mutex makes each call one
-- step; positions are offsets from the base of the buffer.
use Prim.Native.Nat.{min}
use yetanotheros.Common.{
  ℕ, zero, suc, ◌+◌, ◌-◌, Bool, true, false, List, [], ◌∷◌, ◌==◌, if◌then◌else◌, ltb, leb, length,
  take, replicate,
}
use yetanotheros.Common.Outcome.{Outcome, ok, ◌>>=◌, ◌>>◌, kassert}
use yetanotheros.Common.Store.{write}
use yetanotheros.Vfs.Transfer.{store_bytes}

-- `struct exclusive_buffer`, with EBF_EOF of its flags
pub record ExclusiveBuffer : Type 0 where
  pub eof : Bool
  pub buffer_size : ℕ
  pub buffer : ℕ → ℕ
  pub head : ℕ
  pub tail : ℕ

-- `eb_create`, of zeros
unfoldable pub eb_create : ℕ → ExclusiveBuffer
eb_create size = record { eof = true; buffer_size = size; buffer = λ i. 0; head = 0; tail = 0 }

-- `unsafe_assert_valid`
unfoldable pub unsafe_assert_valid : ExclusiveBuffer → Outcome (Unit {0})
unsafe_assert_valid b = do
  kassert (ltb 0 b.head)
  kassert (leb b.head b.tail)
  kassert (leb b.tail b.buffer_size)

-- `unsafe_get_contents_length`
abbrev pub unsafe_get_contents_length : ExclusiveBuffer → ℕ
unsafe_get_contents_length b = b.tail - b.head

-- The loop of `unsafe_move_head`, for so many bytes from index `i` on
unfoldable pub move_loop : ℕ → ℕ → ℕ → (ℕ → ℕ) → ℕ → ℕ
move_loop zero i head bytes = bytes
move_loop (suc count) i head bytes = move_loop count (i + 1) head (write bytes i (bytes (head + i)))

-- `unsafe_move_head`
unfoldable pub unsafe_move_head : ExclusiveBuffer → Outcome ExclusiveBuffer
unfolding unsafe_assert_valid move_loop
unsafe_move_head b =
    if b.head == 0
    then ok b
    else (unsafe_assert_valid b
        >> ok (record b {
          buffer = move_loop (unsafe_get_contents_length b) 0 b.head b.buffer;
          head = 0;
          tail = unsafe_get_contents_length b;
        }))

-- So many bytes from a position on
unfoldable pub slice : (ℕ → ℕ) → ℕ → ℕ → List ℕ
slice bytes from zero = []
slice bytes from (suc n) = bytes from ∷ slice bytes (from + 1) n

-- `kmemmove` of so many bytes to `dest`: it leaves zeros behind.
abbrev pub move_out : (ℕ → ℕ) → ℕ → ℕ → ℕ → ℕ
move_out bytes from n = store_bytes bytes from (replicate n 0)

-- `eb_try_read`: the bytes in `dest`, as many as the function returns
unfoldable pub eb_try_read : ℕ → ExclusiveBuffer → ExclusiveBuffer × List ℕ
unfolding slice store_bytes
eb_try_read size b =
    if b.eof
    then (b, [])
    else (let num_read : ℕ = min (unsafe_get_contents_length b) size in
        (
          record b {
            buffer = move_out b.buffer b.head num_read;
            head = b.head + num_read;
            eof = if b.head + num_read == b.tail then true else b.eof;
          },
          slice b.buffer b.head num_read,
        ))

-- `eb_try_write` of the bytes `src`: how many were written
unfoldable pub eb_try_write : List ℕ → ExclusiveBuffer → Outcome (ExclusiveBuffer × ℕ)
unfolding unsafe_move_head store_bytes
eb_try_write src b = unsafe_move_head b >>= λ b1.
    let num_written : ℕ = min (b1.buffer_size - unsafe_get_contents_length b1) (length src) in
    ok (
      record b1 {
        buffer = store_bytes b1.buffer b1.tail (take num_written src);
        tail = b1.tail + num_written;
        eof = if ltb 0 num_written then false else b1.eof;
      },
      num_written,
    )
