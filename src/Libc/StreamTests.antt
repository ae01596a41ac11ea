-- ===== src/Libc/StreamTests.antt =====
-- A small stream, and the theorem about it there.
use yetanotheros.Common.{ℕ, ◌≡◌, refl, sym, ap, some, List, [], ◌∷◌, ◌++◌, length}
use yetanotheros.Libc.Stream.{
  wrote, Descriptor, fbm_newline, Stream, done, find_newline, batch_of, flush_if, fill_loop, fwrite,
}

-- A descriptor that takes everything
abbrev console : Descriptor (List ℕ)
console = record {
  write = λ bytes w. (w ++ bytes, wrote (length bytes));
  handed = λ w. w;
  write-handed = λ bytes w w' n e. sym (ap (λ x. x.0) e);
}

abbrev stream : Stream
stream = record { buf_mode = fbm_newline; buf_size = 4; buf = [] }

-- Six bytes with a newline in the middle: the first line is sent, the second stays.
writes :
    fwrite console 2 3 (65 ∷ 66 ∷ 10 ∷ 67 ∷ 68 ∷ 69 ∷ []) stream []
    ≡ some (done 2 (record stream { buf = 67 ∷ 68 ∷ 69 ∷ [] }) (65 ∷ 66 ∷ 10 ∷ []))
unfolding fwrite find_newline batch_of flush_if fill_loop
writes = refl
