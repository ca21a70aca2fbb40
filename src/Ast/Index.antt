-- ===== src/Ast/Index.antt =====
-- src/ast/index.rs: `ScopedId`. An index is a `u16`, and wraps; `none` is the panic of an access out
-- of bounds.
pub mod Laws
use protosnirk.Prelude.{
  ℕ, zero, suc, ◌+◌, ◌-◌, ◌%◌, ◌^◌, ◌≡◌, ◌↔◌, refl, ap, Bool, true, false, ◌&&◌, Option, none, some,
  List, [], ◌∷◌, ◌++◌, length, leb, text_eq, text_eq_iff, if◌then◌else◌,
}
use protosnirk.Prelude.Maps.{Eq}

abbrev pub u16_mod : ℕ
u16_mod = 2 ^ 16

-- The outermost scope first.
pub record ScopedId : Type 0 where
  pub indices : List ℕ

-- `ScopedId::default`.
abbrev pub default_id : ScopedId
default_id = record { indices = 0 ∷ [] }

abbrev prepend : ℕ → Option (List ℕ) → Option (List ℕ)
prepend n none = none
prepend n (some ns) = some (n ∷ ns)

-- `self.indices[len - 1] = f(self.indices[len - 1])`.
unfoldable pub update_last : (ℕ → ℕ) → List ℕ → Option (List ℕ)
update_last f [] = none
update_last f (n ∷ []) = some (f n ∷ [])
update_last f (n ∷ m ∷ rest) = prepend n (update_last f (m ∷ rest))

-- `SmallVec::pop`, without the index that it returns.
unfoldable pub drop_last : List ℕ → List ℕ
drop_last [] = []
drop_last (n ∷ []) = []
drop_last (n ∷ m ∷ rest) = n ∷ drop_last (m ∷ rest)

abbrev scoped : Option (List ℕ) → Option ScopedId
scoped none = none
scoped (some ns) = some (record { indices = ns })

-- `increment` and `incremented`.
unfoldable pub incremented : ScopedId → Option ScopedId
unfolding update_last
incremented s = scoped (update_last (λ n. (n + 1) % u16_mod) s.indices)

-- `decrement` and `decremented`.
unfoldable pub decremented : ScopedId → Option ScopedId
unfolding update_last
decremented s = scoped (update_last (λ n. (n + u16_mod - 1) % u16_mod) s.indices)

-- `push` and `pushed`.
unfoldable pub pushed : ScopedId → ScopedId
pushed s = record { indices = s.indices ++ 0 ∷ [] }

-- `pop` and `popped`.
unfoldable pub popped : ScopedId → ScopedId
unfolding drop_last
popped s = record { indices = drop_last s.indices }

abbrev take : ℕ → List ℕ → List ℕ
take zero xs = []
take (suc n) [] = []
take (suc n) (x ∷ xs) = x ∷ take n xs

-- `is_subindex_of`: with no index of its own the slice's end wraps, and the slice panics.
unfoldable pub is_subindex_of : ScopedId → ScopedId → Option Bool
unfolding text_eq
is_subindex_of s other =
    if leb (length s.indices) (length other.indices)
    then elim s.indices [
      | [] ↦ none
      | n ∷ rest ↦ some (text_eq (take (length rest) other.indices) (n ∷ rest))
    ]
    else some false

-- `is_default`.
unfoldable pub is_default : ScopedId → Bool
unfolding text_eq
is_default s = text_eq s.indices (0 ∷ [])

-- The derived `==`.
unfoldable pub same_id : ScopedId → ScopedId → Bool
unfolding text_eq
same_id s t = text_eq s.indices t.indices

pub same_id_iff : (s t : ScopedId) → (same_id s t ≡ true) ↔ (s ≡ t)
unfolding same_id
same_id_iff s t = (
  λ h. ap (λ ns. record { indices = ns }) ((text_eq_iff s.indices t.indices).0 h),
  λ h. (text_eq_iff s.indices t.indices).1 (ap (λ (x : ScopedId). x.indices) h),
)

instance abbrev pub scoped_id_has_eq : Eq ScopedId
scoped_id_has_eq = record { beq = same_id; beq_iff = same_id_iff }
