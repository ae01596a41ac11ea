-- ===== src/Buffer/Refine.antt =====
-- The exclusive buffer against a queue of bytes of a limited length.
use Prim.Native.Nat.{min}
use yetanotheros.Common.{ℕ, ◌-◌, ◌≡◌, refl, ◌∙◌, List, [], ◌∷◌, ◌++◌, length, take, drop, arith}
use yetanotheros.Common.Outcome.{Outcome, ok, ◌>>=◌, bind_ok}
use yetanotheros.Buffer.Ring.{ExclusiveBuffer, eb_create, slice, eb_try_read, eb_try_write}
use yetanotheros.Buffer.Queue.{IsValid, contents, eb_try_read-TakesOff, eb_try_write-PutsAt}

-- What a thread does with the buffer, and what it is answered
pub data Use : Type 0 where
  read : ℕ → Use
  put : List ℕ → Use

pub data Reply : Type 0 where
  bytes_read : List ℕ → Reply
  num_written : ℕ → Reply

abbrev pub use_buffer : Use → ExclusiveBuffer → Outcome (ExclusiveBuffer × Reply)
use_buffer (Use.read size) b =
    let r : ExclusiveBuffer × List ℕ = eb_try_read size b in ok (r.0, bytes_read r.1)
use_buffer (Use.put src) b =
    eb_try_write src b >>= λ (r : ExclusiveBuffer × ℕ). ok (r.0, num_written r.1)

-- A queue of at most `size` bytes
abbrev pub use_queue : ℕ → Use → List ℕ → List ℕ × Reply
use_queue size (Use.read n) q = (drop n q, bytes_read (take n q))
use_queue size (Use.put src) q =
    (q ++ take (size - length q) src, num_written (min (size - length q) (length src)))

unfoldable pub replies : List Use → ExclusiveBuffer → Outcome (List Reply)
replies [] b = ok []
replies (u ∷ us) b = use_buffer u b >>= λ r. replies us r.0 >>= λ rs. ok (r.1 ∷ rs)

unfoldable pub queue_replies : ℕ → List Use → List ℕ → List Reply
queue_replies size [] q = []
queue_replies size (u ∷ us) q =
    (use_queue size u q).1 ∷ queue_replies size us (use_queue size u q).0

replies-queue :
    (us : List Use) (b : ExclusiveBuffer)
    → IsValid b
    → replies us b ≡ ok (queue_replies b.buffer_size us (contents b))
unfolding replies queue_replies
replies-queue [] b v = refl
replies-queue (Use.read n ∷ us) b v =
    let (v1, read_bytes, left, size) = eb_try_read-TakesOff b v n in
    bind_ok (λ rs. ok (bytes_read (eb_try_read n b).1 ∷ rs))
      (replies-queue us (eb_try_read n b).0 v1)
    ∙ (λ i. ok (bytes_read (read_bytes i) ∷ queue_replies (size i) us (left i)))
replies-queue (Use.put src ∷ us) b v =
    let (b1, runs, v1, holds, size) = eb_try_write-PutsAt b src v in
    let room : ℕ = b.buffer_size - length (contents b) in
    bind_ok (λ (r : ExclusiveBuffer × Reply). replies us r.0 >>= λ rs. ok (r.1 ∷ rs))
      (bind_ok (λ (r : ExclusiveBuffer × ℕ). ok (r.0, num_written r.1)) runs)
    ∙ bind_ok (λ rs. ok (num_written (min room (length src)) ∷ rs)) (replies-queue us b1 v1)
    ∙ (λ i. ok (num_written (min room (length src)) ∷ queue_replies (size i) us (holds i)))

-- Whatever threads read from a new buffer and write to it without waiting, in whatever order, each
-- call returns, and they get the answers of a queue of bytes that holds at most `size` bytes: what
-- is written is read once, in order, a write takes as many bytes as there is room for, and a read
-- as many as there are.
pub replies-queue_replies :
    (size : ℕ) (us : List Use) → replies us (eb_create size) ≡ ok (queue_replies size us [])
unfolding eb_create slice
replies-queue_replies size us =
    replies-queue us (eb_create size)
      (record { ordered = omega arith; inside = omega arith; ends = refl })
