-- ===== src/Prelude/Fallible.antt =====
-- The outcome of a run that may fail, and that the model bounds by fuel.
use mathlib.Core.Path.{◌≡◌, refl}

-- `out_of_fuel` has no counterpart in the program.
pub data Outcome {ℓ} (E : Type 0) (A : Type ℓ) : Type ℓ where
  ok : A → Outcome E A
  err : E → Outcome E A
  out_of_fuel : Outcome E A

abbrev pub bind {ℓ κ} :
    {E : Type 0} {A : Type ℓ} {B : Type κ} → Outcome E A → (A → Outcome E B) → Outcome E B
bind (ok a) f = f a
bind (err e) f = err e
bind out_of_fuel f = out_of_fuel

-- Inversion of a successful bind, for proofs where the parts stay shut.
pub bind-eq-ok {ℓ κ} :
    {E : Type 0} {A : Type ℓ} {B : Type κ} (m : Outcome E A) (f : A → Outcome E B) {b : B}
    → bind m f ≡ ok b
    → (a : A) × (m ≡ ok a) × (f a ≡ ok b)
bind-eq-ok (ok a) f h = (a, refl, h)
bind-eq-ok (err e) f h = cc
bind-eq-ok out_of_fuel f h = cc

pub ok-injective {ℓ} :
    {E : Type 0} {A : Type ℓ} {a b : A} → ◌≡◌ {A = Outcome E A} (ok a) (ok b) → a ≡ b
ok-injective e = cc
