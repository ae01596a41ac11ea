-- ===== src/Libc/Memory.antt =====
-- libc/string/memutils.c: memory is a function from addresses to bytes. A comparison returns a
-- sign: -1, 0 or 1.
use yetanotheros.Common.{ℕ, zero, suc, ◌+◌, ◌%◌, Option, none, some, ◌==◌, if◌then◌else◌, ltb}
use yetanotheros.Common.Store.{write}

abbrev pub Bytes : Type 0
Bytes = ℕ → ℕ

pub data Sign : Type 0 where
  minus_one nought one : Sign

-- The loop of `memcmp`, with `n` bytes to go
unfoldable pub memcmp : Bytes → ℕ → ℕ → ℕ → Sign
memcmp m a b zero = nought
memcmp m a b (suc n) =
    let rest = memcmp m (a + 1) (b + 1) n in
    if ltb (m a) (m b) then minus_one else if ltb (m b) (m a) then one else rest

-- The loop of `memcpy`, and of `memmove` to a lower address
unfoldable pub copy_up : ℕ → ℕ → ℕ → Bytes → Bytes
copy_up dst src zero m = m
copy_up dst src (suc n) m = copy_up (dst + 1) (src + 1) n (write m dst (m src))

-- The loop of `memmove` to a higher address, from the last byte on
unfoldable pub copy_down : ℕ → ℕ → ℕ → Bytes → Bytes
copy_down dst src zero m = m
copy_down dst src (suc n) m = copy_down dst src n (write m (dst + n) (m (src + n)))

unfoldable pub memcpy : ℕ → ℕ → ℕ → Bytes → Bytes
unfolding copy_up
memcpy dst src size m = copy_up dst src size m

unfoldable pub memmove : ℕ → ℕ → ℕ → Bytes → Bytes
unfolding copy_up copy_down
memmove dst src size m = if ltb dst src then copy_up dst src size m else copy_down dst src size m

-- `memset`, with the conversion to `unsigned char`
unfoldable pub memset : ℕ → ℕ → ℕ → Bytes → Bytes
memset buf value zero m = m
memset buf value (suc n) m = memset (buf + 1) value n (write m buf (value % 256))

-- `memchr`; `none` is NULL.
unfoldable pub memchr : Bytes → ℕ → ℕ → ℕ → Option ℕ
memchr m ptr value zero = none
memchr m ptr value (suc n) =
    let rest = memchr m (ptr + 1) value n in if m ptr == value then some ptr else rest
