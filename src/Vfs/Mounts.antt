-- ===== src/Vfs/Mounts.antt =====
-- kernel/kernel/vfs/core.c: mount points. Strings are their characters before the terminator. The
-- mutex of the mount points makes each call one step.
use Prim.Native.Nat.{min}
use yetanotheros.Common.{
  ℕ, ◌≡◌, refl, ap, Bool, true, false, not, Option, none, some, List, [], ◌∷◌, ◌++◌, ◌==◌,
  if◌then◌else◌, length, take, drop, get_elem?, arith, take-length-append, length-append,
}
use yetanotheros.Common.Outcome.{Outcome, ok, ◌>>◌, kassert}
use yetanotheros.Utils.{kstrcmp, equal_chars}

abbrev pub vfs_separator : ℕ
vfs_separator = 47

-- `struct vfs_mount`: the path and the identity of the super node
pub record Mount : Type 0 where
  pub path : List ℕ
  pub super_node : ℕ

-- What `vfs_get` asks of a super node: its root, or a node by its path.
pub data Target : Type 0 where
  get_root : ℕ → Target
  get_by_path : ℕ → List ℕ → Target

-- The path under which a super node is mounted: that of the root is empty.
abbrev pub mount_path : List ℕ → List ℕ
mount_path path = if kstrcmp path (vfs_separator ∷ []) then [] else path

unfoldable pub is_occupied : List ℕ → List Mount → Bool
unfolding kstrcmp equal_chars
is_occupied path [] = false
is_occupied path (m ∷ ms) = if kstrcmp path m.path then true else is_occupied path ms

-- The character before the end of a path is the separator. The code reads it in front of the string
-- if the path is empty, which the model takes for another character.
unfoldable pub ends_in_separator : List ℕ → Bool
ends_in_separator [] = false
ends_in_separator (c ∷ []) = c == vfs_separator
ends_in_separator (c ∷ d ∷ cs) = ends_in_separator (d ∷ cs)

-- `vfs_mount`
unfoldable pub vfs_mount : List ℕ → ℕ → List Mount → Outcome (List Mount)
unfolding is_occupied ends_in_separator kstrcmp equal_chars
vfs_mount path super_node mounts =
    kassert (not (ends_in_separator (mount_path path)))
    >> kassert (not (is_occupied (mount_path path) mounts))
    >> ok (record { path = mount_path path; super_node = super_node } ∷ mounts)

-- `path[i]` of a string: its terminator stands behind it.
abbrev pub char_at : List ℕ → ℕ → ℕ
char_at path i = elim (get_elem? path i) [ none ↦ 0 | some c ↦ c ]

-- What the loop of `vfs_get` makes of one mount point: `none` if it goes on.
unfoldable pub match_mount : List ℕ → Mount → Option Target
unfolding equal_chars
match_mount path m =
    let min_len : ℕ = min (length m.path) (length path) in
    if equal_chars (take min_len path) (take min_len m.path)
    then (if char_at path min_len == 0
        then some (get_root m.super_node)
        else (if char_at path min_len == vfs_separator
            then some (get_by_path m.super_node (drop min_len path))
            else none))
    else none

-- `vfs_get`: what it asks for, or `none` for the result NULL
unfoldable pub vfs_get : List ℕ → List Mount → Option Target
unfolding match_mount
vfs_get path [] = none
vfs_get path (m ∷ ms) = elim (match_mount path m) [ none ↦ vfs_get path ms | some t ↦ some t ]

equal_chars_refl : (p : List ℕ) → equal_chars p p ≡ true
unfolding equal_chars
equal_chars_refl [] = refl
equal_chars_refl (c ∷ cs) = ground (arith, equal_chars_refl cs)

take-all : (p : List ℕ) → take (length p) p ≡ p
take-all [] = refl
take-all (c ∷ cs) = ap (λ x. c ∷ x) (take-all cs)

past_end : (p : List ℕ) → char_at p (length p) ≡ 0
past_end [] = refl
past_end (c ∷ cs) = past_end cs

-- A path with which a mount point only begins finds the root of what is mounted there: with
-- something mounted last at /dev, opening /d opens the root of it.
pub vfs_get-prefix :
    (path rest : List ℕ) (super_node : ℕ) (ms : List Mount)
    → vfs_get path (record { path = path ++ rest; super_node = super_node } ∷ ms)
      ≡ some (get_root super_node)
unfolding vfs_get match_mount
vfs_get-prefix path rest super_node ms =
    rw
      (
        vfs_get,
        match_mount,
        shorter,
        take-all path,
        take-length-append path rest,
        equal_chars_refl path,
        past_end path,
      )
      refl
  where
    shorter : min (length (path ++ rest)) (length path) ≡ length path
    shorter = omega (arith, length-append path rest)
