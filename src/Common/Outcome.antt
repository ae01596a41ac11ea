-- ===== src/Common/Outcome.antt =====
-- What a call of kernel code comes to: it returns, or it stops the machine by `kpanic` (which a
-- failed `kassert` also does: the kernel is built with KERNEL_DEBUG).
use mathlib.Core.Path.{◌≡◌, refl, ap}
use mathlib.Core.Bool.{Bool, true, false}

pub data Outcome {ℓ} (A : Type ℓ) : Type ℓ where
  ok : A → Outcome A
  panic : Outcome A

infixl 5 ◌>>=◌ ◌>>◌
abbrev pub ◌>>=◌ {ℓ κ} :
    {Here : Type ℓ} {Then : Type κ} → Outcome Here → (Here → Outcome Then) → Outcome Then
panic >>= go = panic
ok x >>= go = go x

-- A step whose value does not matter
abbrev pub ◌>>◌ {ℓ} : {Then : Type ℓ} → Outcome (Unit {0}) → Outcome Then → Outcome Then
step >> go = step >>= λ _. go

-- `kassert(b)`
abbrev pub kassert : Bool → Outcome (Unit {0})
kassert true = ok tt
kassert false = panic

pub ok-injective {ℓ} : {A : Type ℓ} {a b : A} → ok a ≡ ok b → a ≡ b
ok-injective h = cc

pub panic-ne-ok {ℓ} : {A : Type ℓ} {a : A} → ¬ (panic ≡ ok a)
panic-ne-ok h = cc

-- If two steps return, so does the first, and what it returned is handed to a continuation.
pub with_bind {ℓ κ μ} :
    {A : Type ℓ} {B : Type κ} {P : Type μ} (m : Outcome A) (f : A → Outcome B) {b : B}
    → (m >>= f) ≡ ok b
    → ((a : A) → m ≡ ok a → f a ≡ ok b → P)
    → P
with_bind (ok a) f h k = k a refl h
with_bind panic f h k = absurd (panic-ne-ok h)

-- The same as a triple.
pub bind_parts {ℓ κ} :
    {Here : Type ℓ} {Then : Type κ} {y : Then} (step : Outcome Here) (go : Here → Outcome Then)
    → (step >>= go) ≡ ok y
    → (x : Here) × (step ≡ ok x) × (go x ≡ ok y)
bind_parts step go returns = with_bind step go returns λ x first second. (x, first, second)

-- A step that returns is followed by its continuation.
pub bind_ok {ℓ κ} :
    {Here : Type ℓ} {Then : Type κ} {m : Outcome Here} (go : Here → Outcome Then) {a : Here}
    → m ≡ ok a
    → (m >>= go) ≡ go a
bind_ok go e = ap (λ m. m >>= go) e

pub kassert-holds : (b : Bool) {u : Unit {0}} → kassert b ≡ ok u → b ≡ true
kassert-holds true e = refl
kassert-holds false e = absurd (panic-ne-ok e)
