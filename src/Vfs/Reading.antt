-- ===== src/Vfs/Reading.antt =====
-- What a user program gets by `syscall_read`.
use yetanotheros.Common.{
  length-append, ℕ, zero, suc, ◌+◌, ◌-◌, ◌%◌, ◌^◌, ◌<◌, ◌≤◌, ◌≡◌, ◌≢◌, ◌⊎◌, inl, inr, refl, ap, ◌∙◌,
  subst, true, false, Option, none, some, List, [], ◌∷◌, ◌++◌, ◌==◌, leb, length, take, drop,
  replicate, get_elem?, arith, Bool-cases, ==→eq, length-take, eq_of_some,
}
use yetanotheros.Common.Store.{write, write_self, write_ne}
use yetanotheros.Vfs.File.{FileNode, ReadResult, got, read_error, vfs_file_read}
use yetanotheros.Vfs.Transfer.{
  syscall_file_buffer, batch_size, store_bytes, fill_kbuf, ReadEnd, read_loop, syscall_read_file,
}

pub store_bytes-outside :
    (mem : ℕ → ℕ) (a : ℕ) (bytes : List ℕ) (q : ℕ)
    → (q < a) ⊎ (a + length bytes ≤ q)
    → store_bytes mem a bytes q ≡ mem q
unfolding store_bytes
store_bytes-outside mem a [] q far = refl
store_bytes-outside mem a (b ∷ bs) q far =
    store_bytes-outside (write mem a b) (a + 1) bs q (further far)
    ∙ write_ne mem a b q (elsewhere far)
  where
    further : (q < a) ⊎ (a + suc (length bs) ≤ q) → (q < a + 1) ⊎ (a + 1 + length bs ≤ q)
    further (inl h) = inl (omega arith)
    further (inr h) = inr (omega arith)

    elsewhere : (q < a) ⊎ (a + suc (length bs) ≤ q) → q ≢ a
    elsewhere (inl h) e = absurd (omega arith)
    elsewhere (inr h) e = absurd (omega arith)

pub store_bytes-inside :
    (mem : ℕ → ℕ) (a : ℕ) (bytes : List ℕ) (i : ℕ) {b : ℕ}
    → get_elem? bytes i ≡ some b
    → store_bytes mem a bytes (a + i) ≡ b
unfolding store_bytes
store_bytes-inside mem a [] i e = cc
store_bytes-inside mem a (c ∷ bs) zero {b} e =
    subst (λ q. store_bytes (write mem a c) (a + 1) bs q ≡ b) (omega arith)
      (store_bytes-outside (write mem a c) (a + 1) bs a (inl (omega arith))
        ∙ write_self mem a c
        ∙ eq_of_some e)
store_bytes-inside mem a (c ∷ bs) (suc i) {b} e =
    subst (λ q. store_bytes (write mem a c) (a + 1) bs q ≡ b) (omega arith)
      (store_bytes-inside (write mem a c) (a + 1) bs i e)

get-front :
    (batch : ℕ) (xs ys : List ℕ) (i : ℕ)
    → i < length xs
    → i < batch
    → get_elem? (take batch (xs ++ ys)) i ≡ get_elem? xs i
get-front zero xs ys i inside lt = absurd (omega arith)
get-front (suc batch) [] ys i inside lt = absurd (omega arith)
get-front (suc batch) (x ∷ xs) ys zero inside lt = refl
get-front (suc batch) (x ∷ xs) ys (suc i) inside lt =
    get-front batch xs ys i (omega arith) (omega arith)

-- The bytes that one read after the other gives, from `offset` on, when `count` are asked for: each
-- asks for one batch and begins where the last one ended, until all are read, the offset is not
-- below the size of the file, or a read gives no bytes.
pub data Served (n : FileNode) : ℕ → ℕ → List ℕ → Type 0 where
  stop :
      {offset count : ℕ}
      → (count ≡ 0) ⊎ (n.size ≤ offset) ⊎ (n.read (offset % 2 ^ 32) (batch_size count) ≡ got [])
      → Served n offset count []
  go_on :
      {offset count : ℕ} {bytes rest : List ℕ}
      → n.read (offset % 2 ^ 32) (batch_size count) ≡ got bytes
      → Served n (offset + length bytes) (count - length bytes) rest
      → Served n offset count (bytes ++ rest)

-- `ret` bytes have been read before, and some of `count` more.
pub record Reads (n : FileNode) (offset : ℕ) (mem : ℕ → ℕ) (buf count ret : ℕ) (offset' : ℕ)
    (mem' : ℕ → ℕ) (ret' : ℕ) : Type 0 where
  pub bytes : List ℕ
  pub served : Served n offset count bytes
  pub returned : ret' ≡ ret + length bytes
  pub below : length bytes ≤ count
  pub moved : offset' ≡ offset + length bytes
  pub inside : (i b : ℕ) → get_elem? bytes i ≡ some b → mem' (buf + ret + i) ≡ b
  pub outside : (q : ℕ) → (q < buf + ret) ⊎ (buf + ret + count ≤ q) → mem' q ≡ mem q

abbrev pub EndsAs : FileNode → ℕ → (ℕ → ℕ) → ℕ → ℕ → ℕ → ℕ → (ℕ → ℕ) → Option ℕ → Type 0
EndsAs n offset mem buf count ret offset' mem' none =
    (q : ℕ) → (q < buf + ret) ⊎ (buf + ret + count ≤ q) → mem' q ≡ mem q
EndsAs n offset mem buf count ret offset' mem' (some ret') =
    Reads n offset mem buf count ret offset' mem' ret'

abbrev pub EndsRight : FileNode → ℕ → (ℕ → ℕ) → ℕ → ℕ → ℕ → ReadEnd → Type 0
EndsRight n offset mem buf count ret r =
    EndsAs n offset mem buf count ret r.offset r.memory r.result

nothing-Reads :
    (n : FileNode) (offset : ℕ) (mem : ℕ → ℕ) (buf count ret : ℕ)
    → (count ≡ 0) ⊎ (n.size ≤ offset) ⊎ (n.read (offset % 2 ^ 32) (batch_size count) ≡ got [])
    → Reads n offset mem buf count ret offset mem ret
nothing-Reads n offset mem buf count ret why = record {
  bytes = [];
  served = stop why;
  returned = omega arith;
  below = omega arith;
  moved = omega arith;
  inside = λ i b e. cc;
  outside = λ q far. refl;
}

get_elem?-append :
    (xs ys : List ℕ) (i : ℕ) {b : ℕ}
    → get_elem? (xs ++ ys) i ≡ some b
    → ((i < length xs) × (get_elem? xs i ≡ some b))
      ⊎ ((length xs ≤ i) × (get_elem? ys (i - length xs) ≡ some b))
get_elem?-append [] ys i {b} e =
    inr (omega arith, subst (λ k. get_elem? ys k ≡ some b) (omega arith) e)
get_elem?-append (x ∷ xs) ys zero e = inl (omega arith, e)
get_elem?-append (x ∷ xs) ys (suc i) {b} e = elim (get_elem?-append xs ys i e) [
  | inl (lt, here) ↦ inl (omega arith, here)
  | inr (le, there) ↦ inr (omega arith, subst (λ k. get_elem? ys k ≡ some b) (omega arith) there)
]

module _ (n : FileNode) (offset : ℕ) (kbuf : List ℕ) (mem : ℕ → ℕ) (buf count ret : ℕ)
    (bytes : List ℕ) (batch : ℕ) (some_bytes : 0 < length bytes) (within : length bytes ≤ batch)
    (counted : batch ≤ count) (read : n.read (offset % 2 ^ 32) batch ≡ got bytes)
    (asked : batch ≡ batch_size count) where
  abbrev stored : ℕ → ℕ
  stored = store_bytes mem (buf + ret) (take batch (fill_kbuf kbuf bytes))

  stored-outside : (q : ℕ) → (q < buf + ret) ⊎ (buf + ret + count ≤ q) → stored q ≡ mem q
  stored-outside q (inl h) =
      store_bytes-outside mem (buf + ret) (take batch (fill_kbuf kbuf bytes)) q (inl h)
  stored-outside q (inr h) =
      store_bytes-outside mem (buf + ret) (take batch (fill_kbuf kbuf bytes)) q
        (inr (omega (arith, length-take batch (fill_kbuf kbuf bytes))))

  stored-inside :
      (i b : ℕ) → i < length bytes → get_elem? bytes i ≡ some b → stored (buf + ret + i) ≡ b
  stored-inside i b lt e =
      store_bytes-inside mem (buf + ret) (take batch (fill_kbuf kbuf bytes)) i
        (get-front batch bytes (drop (length bytes) kbuf) i lt (omega arith) ∙ e)

  next-outside :
      (q : ℕ)
      → (q < buf + ret) ⊎ (buf + ret + count ≤ q)
      → (q < buf + (ret + length bytes)) ⊎ (buf + (ret + length bytes) + (count - length bytes) ≤ q)
  next-outside q (inl h) = inl (omega arith)
  next-outside q (inr h) = inr (omega arith)

  step-EndsAs :
      (offset' : ℕ) (mem' : ℕ → ℕ) (result : Option ℕ)
      → EndsAs n
          (offset + length bytes)
          stored
          buf
          (count - length bytes)
          (ret + length bytes)
          offset'
          mem'
          result
      → EndsAs n offset mem buf count ret offset' mem' result
  step-EndsAs offset' mem' none far = λ q out. far q (next-outside q out) ∙ stored-outside q out
  step-EndsAs offset' mem' (some ret') reads = record {
    bytes = bytes ++ reads.bytes;
    served = go_on (subst (λ k. n.read (offset % 2 ^ 32) k ≡ got bytes) asked read) reads.served;
    returned = omega (arith, reads.returned, length-append bytes reads.bytes);
    below = omega (arith, reads.below, length-append bytes reads.bytes);
    moved = omega (arith, reads.moved, length-append bytes reads.bytes);
    inside = λ i b e. elim (get_elem?-append bytes reads.bytes i e) [
      | inl (lt, here) ↦
          reads.outside (buf + ret + i) (inl (omega arith)) ∙ stored-inside i b lt here
      | inr (le, there) ↦
          subst (λ q. mem' q ≡ b) (omega arith) (reads.inside (i - length bytes) b there)
    ];
    outside = λ q out. reads.outside q (next-outside q out) ∙ stored-outside q out;
  }

pub batch_size-bounds :
    (count : ℕ) → 0 < count → (0 < batch_size count) × (batch_size count ≤ count)
batch_size-bounds count pos = (ground arith, ground arith)

-- What a read of one batch comes to: bytes that the node gave, behind which the offset moves, or
-- none at the end of the file
abbrev Gets : FileNode → ℕ → ℕ → ℕ × ReadResult → Type 0
Gets n offset num (offset', got bytes) =
    (offset' ≡ offset + length bytes)
    × (length bytes ≤ num)
    × ((n.read (offset % 2 ^ 32) num ≡ got bytes) ⊎ ((n.size ≤ offset) × (bytes ≡ [])))
Gets n offset num (offset', read_error e) = Unit {0}

vfs_file_read-Gets :
    (n : FileNode) (offset num : ℕ) → 0 < num → Gets n offset num (vfs_file_read n offset num)
unfolding vfs_file_read
vfs_file_read-Gets n offset num pos =
    let more_than_none : (num == 0) ≡ false = ground arith in
    elim (Bool-cases (leb n.size offset)) [
      | inl y ↦
          rw (vfs_file_read, more_than_none, y) (omega arith, omega arith, inr (ground arith, refl))
      | inr more ↦
          rw (vfs_file_read, more_than_none, more) (node_read (n.read (offset % 2 ^ 32) num) refl)
    ]
  where
    node_read :
        (r : ReadResult)
        → n.read (offset % 2 ^ 32) num ≡ r
        → Gets n offset num (elim r [
          | got bytes ↦ (offset + length bytes, got bytes)
          | read_error e ↦ ((offset + (2 ^ 64 - e)) % 2 ^ 64, read_error e)
        ])
    node_read (got bytes) e = (refl, n.reads_within (offset % 2 ^ 32) num bytes e, inl e)
    node_read (read_error k) e = tt

-- The loop ends, with what the file has.
read_loop-EndsRight :
    (fuel : ℕ) (n : FileNode) (offset : ℕ) (kbuf : List ℕ) (mem : ℕ → ℕ) (buf count ret : ℕ)
    → count < fuel
    → (r : ReadEnd) × (read_loop fuel n offset kbuf mem buf count ret ≡ some r)
      × EndsRight n offset mem buf count ret r
unfolding read_loop
read_loop-EndsRight zero n offset kbuf mem buf count ret enough = absurd (omega arith)
read_loop-EndsRight (suc fuel) n offset kbuf mem buf count ret enough =
    elim (Bool-cases (count == 0)) [
      | inl y ↦ (
        record { offset = offset; memory = mem; result = some ret },
        rw (read_loop, y) refl,
        nothing-Reads n offset mem buf count ret (inl (==→eq count 0 y)),
      )
      | inr more ↦
          let (x, runs, ends) =
            after_read (vfs_file_read n offset (batch_size count)) refl (ground arith)
              (λ offset' bytes.
                read_loop-EndsRight fuel n offset' (fill_kbuf kbuf bytes) (stored_by bytes) buf
                  (count - length bytes) (ret + length bytes)) in
          (x, rw (read_loop, more) runs, ends)
    ]
  where
    ended :
        (bytes : List ℕ)
        → (n.read (offset % 2 ^ 32) (batch_size count) ≡ got bytes)
          ⊎ ((n.size ≤ offset) × (bytes ≡ []))
        → length bytes ≡ 0
        → (count ≡ 0) ⊎ (n.size ≤ offset) ⊎ (n.read (offset % 2 ^ 32) (batch_size count) ≡ got [])
    ended bytes (inr (past, e)) none_read = inr (inl past)
    ended [] (inl e) none_read = inr (inr e)
    ended (b ∷ bs) (inl e) none_read = absurd (omega arith)

    nonempty :
        (bytes : List ℕ)
        → (n.read (offset % 2 ^ 32) (batch_size count) ≡ got bytes)
          ⊎ ((n.size ≤ offset) × (bytes ≡ []))
        → 0 < length bytes
        → n.read (offset % 2 ^ 32) (batch_size count) ≡ got bytes
    nonempty bytes (inl e) pos = e
    nonempty bytes (inr (past, e)) pos = absurd (omega (arith, ap length e))

    stored_by : List ℕ → ℕ → ℕ
    stored_by bytes = store_bytes mem (buf + ret) (take (batch_size count) (fill_kbuf kbuf bytes))

    after_read :
        (r : ℕ × ReadResult)
        → vfs_file_read n offset (batch_size count) ≡ r
        → 0 < count
        → ((offset' : ℕ) (bytes : List ℕ)
            → count - length bytes < fuel
            → (x : ReadEnd) × (read_loop fuel n offset'
                  (fill_kbuf kbuf bytes)
                  (stored_by bytes)
                  buf
                  (count - length bytes)
                  (ret + length bytes)
                ≡ some x)
              × EndsRight n offset'
                  (stored_by bytes)
                  buf
                  (count - length bytes)
                  (ret + length bytes)
                  x)
        → (x : ReadEnd) × ((elim r.1 [
          | read_error e ↦ some (record { offset = r.0; memory = mem; result = none })
          | got bytes ↦ elim (length bytes == 0) [
            | true ↦ some (record { offset = r.0; memory = mem; result = some ret })
            | false ↦
                read_loop fuel n r.0
                  (fill_kbuf kbuf bytes)
                  (stored_by bytes)
                  buf
                  (count - length bytes)
                  (ret + length bytes)
          ]
        ])
            ≡ some x)
          × EndsRight n offset mem buf count ret x
    after_read (offset', read_error e) read pos go =
        (record { offset = offset'; memory = mem; result = none }, refl, λ q out. refl)
    after_read (offset', got bytes) read pos go =
        let (some_batch, counted) = batch_size-bounds count pos in
        let (moved, within, given) =
          subst (Gets n offset (batch_size count)) read
            (vfs_file_read-Gets n offset (batch_size count) some_batch) in
        elim (Bool-cases (length bytes == 0)) [
          | inl y ↦ (
            record { offset = offset'; memory = mem; result = some ret },
            rw y refl,
            subst (λ o. Reads n offset mem buf count ret o mem ret)
                (omega (arith, ==→eq (length bytes) 0 y))
                (nothing-Reads n offset mem buf count ret
                  (ended bytes given (==→eq (length bytes) 0 y))),
          )
          | inr z ↦
              let (x, runs, ends) = go offset' bytes (ground arith) in
              (
                x,
                rw z runs,
                step-EndsAs n offset kbuf mem buf count ret bytes (batch_size count) (ground arith)
                    within counted (nonempty bytes given (ground arith)) refl x.offset x.memory
                    x.result
                    (subst
                      (λ o.
                        EndsRight n o (stored_by bytes) buf (count - length bytes)
                          (ret + length bytes) x)
                      moved ends),
              )
        ]

pub syscall_read_file-EndsRight :
    (n : FileNode) (offset : ℕ) (mem : ℕ → ℕ) (buf count : ℕ)
    → (r : ReadEnd) × (syscall_read_file n offset mem buf count ≡ some r)
      × EndsRight n offset mem buf count 0 r
unfolding syscall_read_file
syscall_read_file-EndsRight n offset mem buf count =
    read_loop-EndsRight (suc count) n offset (replicate syscall_file_buffer 0) mem buf count 0
      (omega arith)
