-- ===== src/Buffer/Queue.antt =====
-- What one call does to the bytes that the buffer holds.
use Prim.Native.Nat.{min}
use yetanotheros.Common.{
  ℕ, zero, suc, ◌+◌, ◌-◌, ◌≤◌, ◌≡◌, inl, inr, refl, sym, ap, ◌∙◌, subst, true, false, List, [], ◌∷◌,
  ◌++◌, ◌==◌, if◌then◌else◌, ltb, length, take, drop, arith, Bool-cases, ==→eq, length-take,
  length-replicate, replicate, le→leb, lt→ltb,
}
use yetanotheros.Common.Outcome.{Outcome, ok, bind_ok}
use yetanotheros.Vfs.Transfer.{store_bytes}
use yetanotheros.Vfs.Reading.{store_bytes-outside}
use yetanotheros.Buffer.Ring.{
  ExclusiveBuffer, unsafe_assert_valid, unsafe_get_contents_length, move_loop, unsafe_move_head,
  slice, move_out, eb_try_read, eb_try_write,
}
use yetanotheros.Buffer.Slices.{
  slice-same, slice-at, length-slice, take-slice, drop-slice, move_loop-slice, slice-stored,
  take-min,
}

-- What the buffer holds, and what always holds of it
abbrev pub contents : ExclusiveBuffer → List ℕ
contents b = slice b.buffer b.head (b.tail - b.head)

pub record IsValid (b : ExclusiveBuffer) : Type 0 where
  pub ordered : b.head ≤ b.tail
  pub inside : b.tail ≤ b.buffer_size
  pub ends : b.eof ≡ (b.head == b.tail)

-- A valid buffer stays valid, with the same contents, at its base.
unsafe_move_head-contents :
    (b : ExclusiveBuffer)
    → IsValid b
    → (b1 : ExclusiveBuffer) × (unsafe_move_head b ≡ ok b1)
      × IsValid b1
      × (contents b1 ≡ contents b)
      × (b1.head ≡ 0)
      × (b1.buffer_size ≡ b.buffer_size)
      × (b1.eof ≡ b.eof)
unfolding unsafe_move_head unsafe_assert_valid
unsafe_move_head-contents b v = elim (Bool-cases (b.head == 0)) [
  | inl y ↦ (b, rw (unsafe_move_head, y) refl, v, refl, ==→eq b.head 0 y, refl, refl)
  | inr n ↦ (
    record b {
      buffer = move_loop (b.tail - b.head) 0 b.head b.buffer;
      head = 0;
      tail = b.tail - b.head;
    },
    rw
        (
          unsafe_move_head,
          n,
          lt→ltb 0 b.head (ground arith),
          le→leb b.head b.tail v.ordered,
          le→leb b.tail b.buffer_size v.inside,
        )
        refl,
    record {
      ordered = omega arith;
      inside = omega (arith, v.inside);
      ends = v.ends ∙ ground (arith, v.ordered);
    },
    ap (slice (move_loop (b.tail - b.head) 0 b.head b.buffer) 0) (omega arith)
        ∙ move_loop-slice (b.tail - b.head) 0 b.head b.buffer (ground arith)
        ∙ ap (λ f. slice b.buffer f (b.tail - b.head)) (omega arith),
    refl,
    refl,
    refl,
  )
]

module _ (b : ExclusiveBuffer) (v : IsValid b) where
  empty-contents : b.eof ≡ true → contents b ≡ []
  unfolding slice
  empty-contents e =
      slice-at b.buffer b.head b.head (b.tail - b.head) 0 refl
        (omega (arith, ==→eq b.head b.tail (sym v.ends ∙ e)))

  -- The first bytes are taken off the queue.
  abbrev pub TakesOff : ℕ → ExclusiveBuffer × List ℕ → Type 0
  TakesOff size r =
      IsValid r.0
      × (r.1 ≡ take size (contents b))
      × (contents r.0 ≡ drop size (contents b))
      × (r.0.buffer_size ≡ b.buffer_size)

  abbrev taken : ℕ → ExclusiveBuffer × List ℕ
  taken size =
      let k : ℕ = min (b.tail - b.head) size in
      (
        record b {
          buffer = move_out b.buffer b.head k;
          head = b.head + k;
          eof = if b.head + k == b.tail then true else b.eof;
        },
        slice b.buffer b.head k,
      )

  eb_try_read-eof : (size : ℕ) → b.eof ≡ true → eb_try_read size b ≡ (b, [])
  unfolding eb_try_read
  eb_try_read-eof size y = subst (λ e. (if e then (b, []) else taken size) ≡ (b, [])) (sym y) refl

  eb_try_read-bytes : (size : ℕ) → b.eof ≡ false → eb_try_read size b ≡ taken size
  unfolding eb_try_read
  eb_try_read-bytes size n =
      subst (λ e. (if e then (b, []) else taken size) ≡ taken size) (sym n) refl

  take-nil : (size : ℕ) (q : List ℕ) → q ≡ [] → take size q ≡ []
  take-nil zero q e = refl
  take-nil (suc size) [] e = refl
  take-nil (suc size) (c ∷ q) e = cc

  drop-nil : (size : ℕ) (q : List ℕ) → q ≡ [] → drop size q ≡ []
  drop-nil zero q e = e
  drop-nil (suc size) [] e = refl
  drop-nil (suc size) (c ∷ q) e = cc

  taken-TakesOff : (size : ℕ) → b.eof ≡ false → TakesOff size (taken size)
  taken-TakesOff size n = (
    record { ordered = omega (arith, v.ordered); inside = v.inside; ends = ground (arith) },
    sym (take-slice b.buffer b.head (b.tail - b.head) size),
    slice-same (move_out b.buffer b.head (min (b.tail - b.head) size)) b.buffer
          (b.head + min (b.tail - b.head) size) (b.head + min (b.tail - b.head) size)
          (b.tail - (b.head + min (b.tail - b.head) size))
          (λ i lt.
            store_bytes-outside b.buffer b.head (replicate (min (b.tail - b.head) size) 0)
              (b.head + min (b.tail - b.head) size + i)
              (inr (omega (arith, length-replicate {A = ℕ} (min (b.tail - b.head) size) 0))))
        ∙ slice-at b.buffer _ _ _ (b.tail - b.head - min (b.tail - b.head) size) refl (omega arith)
        ∙ sym (drop-slice b.buffer b.head (b.tail - b.head) size),
    refl,
  )

  -- Reading takes the bytes off the front.
  pub eb_try_read-TakesOff : (size : ℕ) → TakesOff size (eb_try_read size b)
  eb_try_read-TakesOff size = elim (Bool-cases b.eof) [
    | inl y ↦ subst (TakesOff size) (sym (eb_try_read-eof size y)) (
      v,
      sym (take-nil size (contents b) (empty-contents y)),
      empty-contents y ∙ sym (drop-nil size (contents b) (empty-contents y)),
      refl,
    )
    | inr n ↦ subst (TakesOff size) (sym (eb_try_read-bytes size n)) (taken-TakesOff size n)
  ]

-- As many bytes as there is room for are put at the end of the queue.
abbrev pub PutsAt : ExclusiveBuffer → List ℕ → Outcome (ExclusiveBuffer × ℕ) → Type 0
PutsAt b src r =
    let room : ℕ = b.buffer_size - length (contents b) in
    (b1 : ExclusiveBuffer) × (r ≡ ok (b1, min room (length src)))
    × IsValid b1
    × (contents b1 ≡ contents b ++ take room src)
    × (b1.buffer_size ≡ b.buffer_size)

abbrev put_at : List ℕ → ExclusiveBuffer → ExclusiveBuffer × ℕ
put_at src b =
    let n : ℕ = min (b.buffer_size - unsafe_get_contents_length b) (length src) in
    (
      record b {
        buffer = store_bytes b.buffer b.tail (take n src);
        tail = b.tail + n;
        eof = if ltb 0 n then false else b.eof;
      },
      n,
    )

put_at-contents :
    (b : ExclusiveBuffer) (src : List ℕ)
    → IsValid b
    → b.head ≡ 0
    → (contents (put_at src b).0 ≡ contents b ++ take (put_at src b).1 src)
      × IsValid (put_at src b).0
put_at-contents b src v base =
    let n : ℕ = (put_at src b).1 in
    (
      slice-stored b.buffer b.head (b.tail - b.head) b.tail (take n src) (b.tail + n - b.head) n
          (omega (arith, v.ordered)) (omega (arith, length-take n src)) (omega (arith, v.ordered)),
      record {
        ordered = omega (arith, v.ordered);
        inside = omega (arith, v.ordered, v.inside);
        ends = ground (arith, v.ordered);
      },
    )

-- Writing puts as many bytes to the end as there is room for.
pub eb_try_write-PutsAt :
    (b : ExclusiveBuffer) (src : List ℕ) → IsValid b → PutsAt b src (eb_try_write src b)
unfolding eb_try_write
eb_try_write-PutsAt b src v =
    let (b1, moves, v1, same, base, size, eof) = unsafe_move_head-contents b v in
    let (puts, v2) = put_at-contents b1 src v1 base in
    let room : b1.buffer_size - (b1.tail - b1.head) ≡ b.buffer_size - length (contents b) =
      omega (arith, size, ap length same, length-slice b1.buffer b1.head (b1.tail - b1.head)) in
    (
      (put_at src b1).0,
      bind_ok _ moves ∙ ap (λ r. ok ((put_at src b1).0, min r (length src))) room,
      v2,
      puts
          ∙ ap (λ q. q ++ take (put_at src b1).1 src) same
          ∙ ap (λ xs. contents b ++ xs)
              (take-min (b1.buffer_size - (b1.tail - b1.head)) src ∙ ap (λ r. take r src) room),
      size,
    )
