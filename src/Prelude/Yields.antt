-- ===== src/Prelude/Yields.antt =====
-- What holds of the result of an action where it returns: a panic has no result.
use mathlib.Core.Option.{Option, none, some}
use protosnirk.Prelude.States.{Action, Gives, gives, after, pure, ◌>>=◌, ◌>>◌}
use protosnirk.Prelude.Returns.{Returns, returns}

pub data Yields {S A : Type 0} (P : A → Type 0) : Option (A × S) → Type 0 where
  panics : Yields P none
  yields : (a : A) (s : S) → P a → Yields P (some (a, s))

-- `P` holds of the results of `m`, from every state.
pub record Ever {S A : Type 0} (P : A → Type 0) (m : Action S A) : Type 0 where
  pub at : (s : S) → Yields P (m s)

module _ {S A B : Type 0} where
  Yields-after :
      {P : A → Type 0} {Q : B → Type 0} {r : Option (A × S)} {f : A → Action S B}
      → Yields P r
      → ((a : A) → P a → Ever Q (f a))
      → Yields Q (after r f)
  Yields-after panics k = panics
  Yields-after (yields a s p) k = (k a p).at s

  any_then :
      {Q : B → Type 0} (r : Option (A × S)) {f : A → Action S B}
      → ((a : A) → Ever Q (f a))
      → Yields Q (after r f)
  any_then none k = panics
  any_then (some (a, s)) k = (k a).at s

  pub Ever-bind :
      {P : A → Type 0} {Q : B → Type 0} {m : Action S A} {f : A → Action S B}
      → Ever P m
      → ((a : A) → P a → Ever Q (f a))
      → Ever Q (m >>= f)
  unfolding ◌>>=◌
  Ever-bind h k = record { at = λ s. Yields-after (h.at s) k }

  -- Where nothing is known of the first result.
  pub Ever-rest :
      {Q : B → Type 0} {f : A → Action S B} (m : Action S A)
      → ((a : A) → Ever Q (f a))
      → Ever Q (m >>= f)
  unfolding ◌>>=◌
  Ever-rest m k = record { at = λ s. any_then (m s) k }

  pub Ever-then : {Q : B → Type 0} {k : Action S B} (m : Action S A) → Ever Q k → Ever Q (m >> k)
  unfolding ◌>>◌ ◌>>=◌
  Ever-then m h = record { at = λ s. any_then (m s) λ _. h }

module _ {S A : Type 0} where
  pub Ever-pure : {P : A → Type 0} (a : A) → P a → Ever {S = S} P (pure a)
  unfolding pure
  Ever-pure a p = record { at = λ s. yields a s p }

  -- An action that returns, with what holds of its result.
  pub Returns-both :
      {P : A → Type 0} {R : S → Type 0} {r : Option (A × S)}
      → Gives R r
      → Yields P r
      → Returns (λ a s. P a × R s) r
  Returns-both (gives a s h) (yields _ _ p) = returns a s (p, h)
