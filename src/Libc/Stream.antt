-- ===== src/Libc/Stream.antt =====
-- libc/stdio/stream.c: buffered output. A descriptor is an interface: what `write` does with some
-- bytes, and which bytes it was called with.
use Prim.Native.Nat.{min}
use yetanotheros.Common.{
  ℕ, zero, suc, ◌+◌, ◌-◌, ◌/◌, ◌≡◌, Bool, true, false, ◌||◌, Option, none, some, List, [], ◌∷◌,
  ◌++◌, ◌==◌, if◌then◌else◌, length, take, drop,
}

-- What `write` answers: how many bytes it took, or an error number.
pub data Answer : Type 0 where
  wrote : ℕ → Answer
  refused : ℕ → Answer

-- `write` of a descriptor, in a world that keeps account of the bytes it was called with: `handed`
-- has those of the calls that were not refused, however many of them were taken.
pub record Descriptor (World : Type 0) : Type 0 where
  pub write : List ℕ → World → World × Answer
  pub handed : World → List ℕ
  pub write-handed :
      (bytes : List ℕ) (w w' : World) (n : ℕ)
      → write bytes w ≡ (w', wrote n)
      → handed w' ≡ handed w ++ bytes

pub data BufMode : Type 0 where
  fbm_flush fbm_newline fbm_overflow : BufMode

-- `FILE`: `buf` are the first `num` bytes of the buffer.
pub record Stream : Type 0 where
  pub buf_mode : BufMode
  pub buf_size : ℕ
  pub buf : List ℕ

-- What a call comes to: the value that it returns, or the error number that it sets.
pub data Written (World : Type 0) : Type 0 where
  done : ℕ → Stream → World → Written World
  failed : ℕ → Stream → World → Written World

abbrev pub newline : ℕ
newline = 10

-- `memchr(ptr, '\n', num)`, as an index
unfoldable pub find_newline : ℕ → List ℕ → Option ℕ
find_newline zero xs = none
find_newline (suc num) [] = none
find_newline (suc num) (x ∷ xs) =
    if x == newline
    then some 0
    else elim (find_newline num xs) [ none ↦ none | some i ↦ some (suc i) ]

-- How much goes into the buffer at once, and whether a newline ends it
abbrev pub with_newline : ℕ → Option ℕ → ℕ × Bool
with_newline batch none = (batch, false)
with_newline batch (some i) = (i + 1, true)

unfoldable pub batch_of : Bool → Stream → List ℕ → ℕ × Bool
unfolding find_newline
batch_of lines f rest =
    let batch : ℕ = min (length rest) (f.buf_size - length f.buf) in
    if lines then with_newline batch (find_newline batch rest) else (batch, false)

module _ {World : Type 0} (d : Descriptor World) where
  -- What `write` of the buffer comes to; the buffer is then empty.
  abbrev pub after_write : Stream → World × Answer → Written World
  after_write f (w, wrote n) = done 0 (record f { buf = [] }) w
  after_write f (w, refused e) = failed e f w

  -- Flush if the stream would overflow, or a newline has been found.
  unfoldable pub flush_if : Bool → Stream → World → Written World
  flush_if found f w =
      if found || length f.buf == f.buf_size then after_write f (d.write f.buf w) else done 0 f w

  -- The loops of `fwrite_newline` and of `fwrite_overflow`, which looks for no newline. `none`:
  -- the loop goes on for ever.
  unfoldable pub fill_loop : Bool → ℕ → Bool → List ℕ → Stream → World → Option (Written World)
  unfolding flush_if batch_of
  fill_loop lines zero found rest f w = none
  fill_loop lines (suc fuel) found rest f w = elim (flush_if found f w) [
    | failed e f1 w1 ↦ some (failed e f1 w1)
    | done _ f1 w1 ↦ elim rest [
      | [] ↦ some (done 0 f1 w1)
      | x ∷ xs ↦
          let b = batch_of lines f1 (x ∷ xs) in
          fill_loop lines fuel b.1 (drop b.0 (x ∷ xs))
            (record f1 { buf = f1.buf ++ take b.0 (x ∷ xs) }) w1
    ]
  ]

  abbrev pub returning : ℕ → Written World → Written World
  returning n (done _ f w) = done n f w
  returning n (failed e f w) = failed e f w

  -- `fwrite_newline` and `fwrite_overflow` on all bytes, in a round for each and one more
  unfoldable pub fwrite_buffered : Bool → ℕ → List ℕ → Stream → World → Option (Written World)
  unfolding fill_loop
  fwrite_buffered lines nmemb ptr f w = elim (fill_loop lines (suc (length ptr)) false ptr f w) [
    | none ↦ none
    | some r ↦ some (returning (length ptr / nmemb) r)
  ]

  -- `fwrite_flush`
  abbrev pub flushed : ℕ → Stream → World × Answer → Written World
  flushed size f (w, wrote n) = done (n / size) f w
  flushed size f (w, refused e) = failed e f w

  -- What `fwrite` calls for each mode
  unfoldable pub fwrite_mode : BufMode → ℕ → ℕ → List ℕ → Stream → World → Option (Written World)
  unfolding fwrite_buffered
  fwrite_mode BufMode.fbm_flush size nmemb ptr f w = some (flushed size f (d.write ptr w))
  fwrite_mode BufMode.fbm_newline size nmemb ptr f w = fwrite_buffered true nmemb ptr f w
  fwrite_mode BufMode.fbm_overflow size nmemb ptr f w = fwrite_buffered false nmemb ptr f w

  -- `fwrite` of `size * nmemb` bytes
  unfoldable pub fwrite : ℕ → ℕ → List ℕ → Stream → World → Option (Written World)
  unfolding fwrite_mode
  fwrite size nmemb ptr f w =
      if size == 0 || nmemb == 0
      then some (done 0 f w)
      else fwrite_mode f.buf_mode size nmemb ptr f w

  -- `fflush`
  unfoldable pub fflush : Stream → World → Written World
  fflush f w = after_write f (d.write f.buf w)
