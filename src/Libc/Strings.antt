-- ===== src/Libc/Strings.antt =====
-- libc/string/strutils.c on strings as the lists of their characters before the terminator. A
-- character is its value plus 128 (`char` is signed), so the terminator is 128. Reading behind the
-- terminator stops the model.
use yetanotheros.Common.{
  ℕ, zero, suc, Bool, true, false, Option, none, some, List, [], ◌∷◌, ◌==◌, if◌then◌else◌, ltb,
  length,
}
use yetanotheros.Common.Outcome.{Outcome, ok, panic, ◌>>=◌}
use yetanotheros.Libc.Memory.{Sign, minus_one, nought, one}

abbrev pub terminator : ℕ
terminator = 128

-- One round of a comparison, and what it goes on with
abbrev pub compare_with : Outcome Sign → ℕ → ℕ → Outcome Sign
compare_with rest a b = if ltb a b then ok minus_one else if ltb b a then ok one else rest

-- `strncmp`: it does not stop at a terminator that both have.
unfoldable pub strncmp : List ℕ → List ℕ → ℕ → Outcome Sign
strncmp s t zero = ok nought
strncmp [] [] (suc n) = panic
strncmp [] (b ∷ ys) (suc n) = compare_with panic terminator b
strncmp (a ∷ xs) [] (suc n) = compare_with panic a terminator
strncmp (a ∷ xs) (b ∷ ys) (suc n) = let rest = strncmp xs ys n in compare_with rest a b

-- `strcmp`: the longer string is the greater one.
unfoldable pub strcmp : List ℕ → List ℕ → Outcome Sign
unfolding strncmp
strcmp s t =
    if ltb (length t) (length s)
    then ok one
    else if ltb (length s) (length t)
    then ok minus_one
    else strncmp s t (length s)

-- `strchr`: the rest of the string from the first such character on
unfoldable pub strchr : List ℕ → ℕ → Option (List ℕ)
strchr [] c = none
strchr (a ∷ xs) c = let rest = strchr xs c in if a == c then some (a ∷ xs) else rest

abbrev pub is_nought : Sign → Bool
is_nought Sign.nought = true
is_nought _ = false

-- The loop of `strstr`
unfoldable pub strstr_loop : List ℕ → List ℕ → Outcome (Option (List ℕ))
unfolding strncmp
strstr_loop [] t = ok none
strstr_loop (a ∷ xs) t =
    let rest = strstr_loop xs t in
    if ltb (length (a ∷ xs)) (length t)
    then ok none
    else strncmp (a ∷ xs) t (length t) >>= λ sign.
        if is_nought sign then ok (some (a ∷ xs)) else rest

-- `strstr` on strings that are not NULL
unfoldable pub strstr : List ℕ → List ℕ → Outcome (Option (List ℕ))
unfolding strstr_loop
strstr s t =
    if length t == 0
    then ok (some s)
    else if ltb (length s) (length t)
    then ok none
    else strstr_loop s t
