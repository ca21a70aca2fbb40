-- ===== src/Prelude/Runs.antt =====
-- Actions that never panic, with a relation between the states before and after: one rule for each
-- way to build an action.
use mathlib.Core.Bool.{Bool, true, false}
use protosnirk.Prelude.Tests.{if◌then◌else◌}
use protosnirk.Prelude.States.{
  Action, Gives, gives, Gives-after, Gives-weaken, pure, gets, modify, ◌>>=◌, ◌>>◌,
}

-- What the relation has to satisfy: it holds where nothing is done, it composes, and it leads to
-- states that an action can start from.
pub record IsFrame {S : Type 0} (P : S → Type 0) (R : S → S → Type 0) : Type 0 where
  pub stays : (s : S) → P s → R s s
  pub joins : (s t u : S) → R s t → R t u → R s u
  pub goes_on : (s t : S) → R s t → P t

-- `m` returns from every state that `P` holds of, and `R` relates the two states.
pub record Runs {ℓ} {S : Type 0} {A : Type ℓ} (P : S → Type 0) (R : S → S → Type 0) (m : Action S A)
    : Type ℓ where
  pub at : (s : S) → P s → Gives (R s) (m s)

module _ {S : Type 0} {P : S → Type 0} {R : S → S → Type 0} ⦃c : IsFrame P R⦄ where
  pub Runs-pure {ℓ} : {A : Type ℓ} (a : A) → Runs P R (pure a)
  unfolding pure
  Runs-pure a = record { at = λ s p. gives a s (c.stays s p) }

  pub Runs-gets {ℓ} : {A : Type ℓ} (f : S → A) → Runs P R (gets f)
  unfolding gets
  Runs-gets f = record { at = λ s p. gives (f s) s (c.stays s p) }

  pub Runs-modify : (f : S → S) → ((s : S) → P s → R s (f s)) → Runs P R (modify f)
  unfolding modify
  Runs-modify f h = record { at = λ s p. gives tt (f s) (h s p) }

  pub Runs-bind {ℓ κ} :
      {A : Type ℓ} {B : Type κ} (m : Action S A) (f : A → Action S B)
      → Runs P R m
      → ((a : A) → Runs P R (f a))
      → Runs P R (m >>= f)
  unfolding ◌>>=◌
  Runs-bind m f km kf = record {
    at = λ s p. Gives-after (R s) (R s) (km.at s p) λ a t r.
        Gives-weaken (R t) (R s) (λ u r'. c.joins s t u r r') ((kf a).at t (c.goes_on s t r));
  }

  pub Runs-then {ℓ κ} :
      {A : Type ℓ} {B : Type κ} (m : Action S A) (k : Action S B)
      → Runs P R m
      → Runs P R k
      → Runs P R (m >> k)
  unfolding ◌>>◌
  Runs-then m k km kk = Runs-bind m (λ _. k) km (λ _. kk)

  -- Where the rest of a block uses what was read, and the state that it was read from.
  pub Runs-read {ℓ κ} :
      {A : Type ℓ} {B : Type κ} (g : S → A) (f : A → Action S B)
      → ((s : S) → P s → Gives (R s) (f (g s) s))
      → Runs P R (gets g >>= f)
  unfolding ◌>>=◌ gets
  Runs-read g f h = record { at = h }

  pub Runs-if {ℓ} :
      {A : Type ℓ} (b : Bool) (m n : Action S A)
      → Runs P R m
      → Runs P R n
      → Runs P R (if b then m else n)
  Runs-if true m n km kn = km
  Runs-if false m n km kn = kn

pub ruleset run_rules = (Runs-pure, Runs-gets, Runs-bind, Runs-then, Runs-if)

pub Runs-weaken {ℓ} :
    {S : Type 0} {P : S → Type 0} {A : Type ℓ} (R Q : S → S → Type 0) (m : Action S A)
    → ((s t : S) → R s t → Q s t)
    → Runs P R m
    → Runs P Q m
Runs-weaken R Q m h k = record { at = λ s p. Gives-weaken (R s) (Q s) (λ t r. h s t r) (k.at s p) }
