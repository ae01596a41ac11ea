-- ===== src/Libc/Tests.antt =====
-- Overlapping copies in a small memory, and a search.
use yetanotheros.Common.{ℕ, ◌≡◌, refl, arith, List, [], ◌∷◌, some, inl, ◌++◌}
use yetanotheros.Common.Outcome.{ok}
use yetanotheros.Common.Store.{write}
use yetanotheros.Libc.Copying.{strcat, StringAt}
use yetanotheros.Libc.CopyLaws.{Wrote, strcat-Wrote}
use yetanotheros.Libc.Strings.{strncmp, strstr_loop, strstr}
use yetanotheros.Libc.Search.{Finds, strstr-Finds}
use yetanotheros.Libc.Memory.{Bytes, memcpy, memmove}
use yetanotheros.Libc.Move.{copied, memmove-copied, memcpy-memmove}

-- Each address holds itself.
abbrev count_up : Bytes
count_up = λ q. q

memmove-copied_example : memmove 12 10 4 count_up 13 ≡ copied 12 10 4 count_up 13
memmove-copied_example = memmove-copied 12 10 4 13 count_up

memcpy-memmove_example : memcpy 10 12 4 count_up 13 ≡ memmove 10 12 4 count_up 13
memcpy-memmove_example = memcpy-memmove 10 12 4 13 count_up (omega arith)

abbrev banana : List ℕ
banana = 226 ∷ 225 ∷ 238 ∷ 225 ∷ 238 ∷ 225 ∷ []

abbrev nan : List ℕ
nan = 238 ∷ 225 ∷ 238 ∷ []

found : strstr banana nan ≡ ok (some (238 ∷ 225 ∷ 238 ∷ 225 ∷ []))
unfolding strstr strstr_loop strncmp
found = refl

strstr-Finds_example : Finds banana nan (strstr banana nan)
strstr-Finds_example = strstr-Finds banana nan

-- Two strings in memory, at 10 and at 100
abbrev desk : Bytes
desk = write (write (write (λ i. 0) 10 97) 11 98) 100 99

first : StringAt desk 10 (97 ∷ 98 ∷ [])
unfolding write
first = ((refl, omega arith, (refl, omega arith, tt)), refl)

second : StringAt desk 100 (99 ∷ [])
unfolding write
second = ((refl, omega arith, tt), refl)

strcat-Wrote_example :
    (k : Bytes) × (strcat 8 10 100 desk ≡ some k) × Wrote desk 10 ((97 ∷ 98 ∷ []) ++ (99 ∷ [])) k
strcat-Wrote_example =
    strcat-Wrote 8 desk 10 100 (97 ∷ 98 ∷ []) (99 ∷ []) first second (inl (omega arith))
      (omega arith) (omega arith)
