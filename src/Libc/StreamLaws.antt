-- ===== src/Libc/StreamLaws.antt =====
-- What buffered output hands to `write`, and what it keeps.
use yetanotheros.Common.{ℕ, ◌<◌, ◌≡◌, List, ◌++◌, length}
use yetanotheros.Libc.Stream.{Descriptor, Stream, Written, done, failed}

module _ {World : Type 0} (d : Descriptor World) where
  -- What `write` has been called with, with what is in the buffer
  abbrev pub all_bytes : Stream → World → List ℕ
  all_bytes f w = d.handed w ++ f.buf

  -- A call that returns has put all of its bytes behind those of before, and the buffer is not
  -- overrun. One that fails has an error number.
  abbrev pub Puts : List ℕ → Stream → World → Written World → Type 0
  Puts ptr f w (done n f1 w1) =
      (all_bytes f1 w1 ≡ all_bytes f w ++ ptr)
      × (length f1.buf < f1.buf_size)
      × (f1.buf_size ≡ f.buf_size)
  Puts ptr f w (failed e f1 w1) = Unit {0}
