-- ===== src/Utils/Tests.antt =====
-- Strings that `kstrcmp` does not tell apart.
use yetanotheros.Common.{ℕ, ◌≡◌, ◌↔◌, refl, true, List, [], ◌∷◌, ◌++◌}
use yetanotheros.Utils.{kstrcmp, equal_chars, kstrcmp-prefix}

confused : kstrcmp (97 ∷ []) (97 ∷ 98 ∷ []) ≡ true
unfolding kstrcmp equal_chars
confused = refl

kstrcmp-prefix_example :
    (kstrcmp (97 ∷ []) (97 ∷ 98 ∷ []) ≡ true)
    ↔ ((rest : List ℕ) × (97 ∷ 98 ∷ [] ≡ (97 ∷ []) ++ rest))
kstrcmp-prefix_example = kstrcmp-prefix (97 ∷ []) (97 ∷ 98 ∷ [])
