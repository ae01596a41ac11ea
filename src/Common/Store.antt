-- ===== src/Common/Store.antt =====
-- Memory as a function from addresses (or identifiers) to what stands there, updated at one place.
use Prim.Native.Nat.{ℕ}
use mathlib.Core.Path.{◌≡◌}
use mathlib.Core.Logic.{◌≢◌}
use native.Mathlib.Omega.{arith}
use yetanotheros.Common.Tests.{◌==◌, if◌then◌else◌}

unfoldable pub write {ℓ} : {A : Type ℓ} → (ℕ → A) → ℕ → A → ℕ → A
write s p v q = if q == p then v else s q

pub write_self {ℓ} : {A : Type ℓ} (s : ℕ → A) (p : ℕ) (v : A) → write s p v p ≡ v
unfolding write
write_self s p v = ground arith

pub write_ne {ℓ} : {A : Type ℓ} (s : ℕ → A) (p : ℕ) (v : A) (q : ℕ) → q ≢ p → write s p v q ≡ s q
unfolding write
write_ne s p v q h = ground arith
