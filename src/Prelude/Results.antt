-- ===== src/Prelude/Results.antt =====
-- Go's pair of a value and an error: `err` for a non-nil error.
use mathlib.Core.Bool.{Bool, true, false}
use mathlib.Core.Path.{◌≡◌, refl}
use hooks.Prelude.Tests.{if◌then◌else◌}

pub data Result {ℓ} (E A : Type ℓ) : Type ℓ where
  ok : A → Result E A
  err : E → Result E A

infixl 5 ◌>>=◌
abbrev pub ◌>>=◌ {ℓ} : {E A B : Type ℓ} → Result E A → (A → Result E B) → Result E B
ok a >>= f = f a
err e >>= f = err e

-- What holds of the state after either branch holds after an `if`.
pub after_if {ℓ} :
    {A S : Type ℓ} (P : S → Type 0) (b : Bool) (x y : A × S)
    → (b ≡ true → P x.1)
    → (b ≡ false → P y.1)
    → P (if b then x else y).1
after_if P true x y f g = f refl
after_if P false x y f g = g refl
