-- ===== src/Prelude/Returns.antt =====
-- Actions that return, with what holds of the result and of the state behind it.
use protosnirk.Prelude.States.{Action, after}
use mathlib.Core.Option.{Option, some}

pub data Returns {ℓ} {S : Type 0} {A : Type ℓ} (P : A → S → Type 0) : Option (A × S) → Type ℓ where
  returns : (a : A) (s : S) → P a s → Returns P (some (a, s))

module _ {ℓ κ} {S : Type 0} {A : Type ℓ} {B : Type κ} where
  pub Returns-after :
      {P : A → S → Type 0} (Q : B → S → Type 0) {r : Option (A × S)} {f : A → Action S B}
      → Returns P r
      → ((a : A) (s : S) → P a s → Returns Q (f a s))
      → Returns Q (after r f)
  Returns-after Q (returns a s p) k = k a s p

pub Returns-weaken {ℓ} :
    {S : Type 0} {A : Type ℓ} {P : A → S → Type 0} (Q : A → S → Type 0) {r : Option (A × S)}
    → Returns P r
    → ((a : A) (s : S) → P a s → Q a s)
    → Returns Q r
Returns-weaken Q (returns a s p) k = returns a s (k a s p)
