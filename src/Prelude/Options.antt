-- ===== src/Prelude/Options.antt =====
-- Optional values: `null` and `undefined` of the source.
use Prim.Native.Nat.{ℕ}
use mathlib.Core.Path.{◌≡◌, refl}
use mathlib.Core.Logic.{◌⊎◌, inl, inr}
use mathlib.Core.Bool.{Bool, false}
use mathlib.Core.Option.{Option, none, some}
use be_distribution_system_a.Prelude.Tests.{◌==◌}

pub Option-cases {ℓ} : {A : Type ℓ} (o : Option A) → (o ≡ none) ⊎ ((a : A) × (o ≡ some a))
Option-cases none = inl refl
Option-cases (some a) = inr (a, refl)

-- `x === k` at a field that may be `null`.
abbrev pub is_some_of : ℕ → Option ℕ → Bool
is_some_of k none = false
is_some_of k (some j) = j == k

-- `a && b === a`: the optional value `a` is there and the field `b` has it.
abbrev pub both_same : Option ℕ → Option ℕ → Bool
both_same none field = false
both_same (some a) field = is_some_of a field
