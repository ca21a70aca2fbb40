-- ===== src/Prelude/States.antt =====
-- The actions of a visitor: a state that is passed on, and `none` for a panic.
use mathlib.Core.Option.{Option, none, some}

abbrev pub Action {ℓ} : Type 0 → Type ℓ → Type ℓ
Action S A = S → Option (A × S)

abbrev pub after {ℓ κ} :
    {S : Type 0} {A : Type ℓ} {B : Type κ} → Option (A × S) → (A → Action S B) → Option (B × S)
after none f = none
after (some (a, s)) f = f a s

module _ {S : Type 0} where
  unfoldable pub pure {ℓ} : {A : Type ℓ} → A → Action S A
  pure a s = some (a, s)

  unfoldable pub panic {ℓ} : {A : Type ℓ} → Action S A
  panic s = none

  -- `expect` on an option.
  unfoldable pub expect {ℓ} : {A : Type ℓ} → Option A → Action S A
  unfolding panic pure
  expect none = panic
  expect (some a) = pure a

  unfoldable pub gets {ℓ} : {A : Type ℓ} → (S → A) → Action S A
  gets f s = some (f s, s)

  unfoldable pub modify : (S → S) → Action S (Unit {0})
  modify f s = some (tt, f s)

  -- A step that may panic.
  attempted : Option S → Option (Unit {0} × S)
  attempted none = none
  attempted (some s) = some (tt, s)

  unfoldable pub attempt : (S → Option S) → Action S (Unit {0})
  unfolding attempted
  attempt f s = attempted (f s)

  -- An action that always returns.
  unfoldable pub total {ℓ} : {A : Type ℓ} → (S → A × S) → Action S A
  total f s = some (f s)

infixl 5 ◌>>=◌ ◌>>◌
unfoldable pub ◌>>=◌ {ℓ κ} :
    {S : Type 0} {A : Type ℓ} {B : Type κ} → Action S A → (A → Action S B) → Action S B
◌>>=◌ m f s = after (m s) f

unfoldable pub ◌>>◌ {ℓ κ} :
    {S : Type 0} {A : Type ℓ} {B : Type κ} → Action S A → Action S B → Action S B
unfolding ◌>>=◌
m >> k = m >>= λ _. k

-- That an action returns, with a state that `P` holds of.
pub data Gives {ℓ} {S : Type 0} {A : Type ℓ} (P : S → Type 0) : Option (A × S) → Type ℓ where
  gives : (a : A) (s : S) → P s → Gives P (some (a, s))

module _ {ℓ κ} {S : Type 0} {A : Type ℓ} {B : Type κ} where
  pub Gives-after :
      (P Q : S → Type 0) {r : Option (A × S)} {f : A → Action S B}
      → Gives P r
      → ((a : A) (s : S) → P s → Gives Q (f a s))
      → Gives Q (after r f)
  Gives-after P Q (gives a s p) k = k a s p

pub Gives-weaken {ℓ} :
    {S : Type 0} {A : Type ℓ} (P Q : S → Type 0) {r : Option (A × S)}
    → ((s : S) → P s → Q s)
    → Gives P r
    → Gives Q r
Gives-weaken P Q h (gives a s p) = gives a s (h s p)
