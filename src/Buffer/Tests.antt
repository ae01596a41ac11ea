-- ===== src/Buffer/Tests.antt =====
-- A buffer of four bytes, and the theorem about it there.
use yetanotheros.Common.{◌≡◌, refl, List, [], ◌∷◌}
use yetanotheros.Common.Outcome.{ok}
use yetanotheros.Buffer.Ring.{eb_create}
use yetanotheros.Buffer.Refine.{
  Use, read, put, bytes_read, num_written, replies, queue_replies, replies-queue_replies,
}

abbrev calls : List Use
calls = put (1 ∷ 2 ∷ 3 ∷ []) ∷ read 2 ∷ put (4 ∷ 5 ∷ 6 ∷ 7 ∷ []) ∷ read 9 ∷ read 1 ∷ []

answers :
    queue_replies 4 calls []
    ≡ num_written 3
      ∷ bytes_read (1 ∷ 2 ∷ [])
      ∷ num_written 3
      ∷ bytes_read (3 ∷ 4 ∷ 5 ∷ 6 ∷ [])
      ∷ bytes_read []
      ∷ []
unfolding queue_replies
answers = refl

replies-queue_replies_example : replies calls (eb_create 4) ≡ ok (queue_replies 4 calls [])
replies-queue_replies_example = replies-queue_replies 4 calls
