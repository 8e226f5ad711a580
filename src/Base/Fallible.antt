-- ===== src/Base/Fallible.antt =====
-- A computation that may panic: `none`.
use mathlib.Core.Path.{◌≡◌, refl, ap}
use mathlib.Core.Option.{Option, none, some}
use native.Mathlib.Omega.{arith}

infixl 5 ◌>>=◌
abbrev pub ◌>>=◌ {ℓ κ} : {A : Type ℓ} {B : Type κ} → Option A → (A → Option B) → Option B
some a >>= f = f a
none >>= f = none

module _ {ℓ} {A : Type ℓ} where
  abbrev or_else : A → Option A → A
  or_else d none = d
  or_else d (some a) = a

  pub some_injective : {a b : A} → some a ≡ some b → a ≡ b
  some_injective {a} e = ap (or_else a) e

-- A chain that gives a value gives one at each link.
pub bind-some {ℓ κ} :
    {A : Type ℓ} {B : Type κ} (o : Option A) (f : A → Option B) {b : B}
    → (o >>= f) ≡ some b
    → (a : A) × (o ≡ some a) × (f a ≡ some b)
bind-some none f e = absurd (ground (arith, e))
bind-some (some a) f e = (a, refl, e)
