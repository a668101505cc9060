-- ===== src/Prelude/Table.antt =====
-- A database table as the list of its rows. The operations are those of the Prisma client that
-- the services call: `findUnique`, `findMany`, `updateMany` and its count.
use be_distribution_system_a.Prelude.Tests.{◌==◌, if◌then◌else◌}
use Prim.Native.Nat.{ℕ, ◌+◌}
use mathlib.Core.Path.{◌≡◌, refl}
use mathlib.Core.Bool.{Bool, false, ◌&&◌}
use mathlib.Core.Option
use mathlib.Core.Option.{Option, none, some}
use mathlib.Core.List.{List, [], ◌∷◌, ◌++◌}
use native.Mathlib.Omega.{arith}

-- `b ? f x : x`
abbrev pub apply_if {ℓ} : {A : Type ℓ} → Bool → (A → A) → A → A
apply_if b f x = if b then f x else x

module _ {ℓ} {A : Type ℓ} (key : A → ℕ) where
  -- `findUnique({ where: { key: k } })`
  unfoldable pub find_by : ℕ → List A → Option A
  find_by k [] = none
  find_by k (x ∷ xs) = if key x == k then some x else find_by k xs

  -- `findMany({ where: { key: k } })`
  unfoldable pub find_many : ℕ → List A → List A
  find_many k [] = []
  find_many k (x ∷ xs) = let rest = find_many k xs in if key x == k then x ∷ rest else rest

  -- `updateMany({ where: { key: k, …q }, data: f })`
  unfoldable pub update_by : ℕ → (A → Bool) → (A → A) → List A → List A
  update_by k q f [] = []
  update_by k q f (x ∷ xs) = apply_if (key x == k && q x) f x ∷ update_by k q f xs

  -- the `count` that `updateMany` returns
  unfoldable pub count_by : ℕ → (A → Bool) → List A → ℕ
  count_by k q [] = 0
  count_by k q (x ∷ xs) = (if key x == k && q x then 1 else 0) + count_by k q xs

  -- No two rows have one key: a primary key or a unique index.
  abbrev pub IsUnique : List A → Type ℓ
  IsUnique [] = Unit
  IsUnique (x ∷ xs) = (find_by (key x) xs ≡ none) × IsUnique xs

  abbrev pub passes : (A → Bool) → Option A → Bool
  passes q none = false
  passes q (some x) = q x

  -- An update that keeps the keys shows at its key alone.
  pub find_by-update_by :
      (j k : ℕ) (q : A → Bool) (f : A → A) (xs : List A)
      → ((x : A) → key (f x) ≡ key x)
      → find_by j (update_by k q f xs)
        ≡ (if j == k then Option.map (λ x. apply_if (q x) f x) (find_by j xs) else find_by j xs)
  unfolding find_by update_by
  find_by-update_by j k q f [] keeps = ground arith
  find_by-update_by j k q f (x ∷ xs) keeps =
      ground (arith, keeps x, find_by-update_by j k q f xs keeps)

  -- A row that is found has the key.
  pub find_by-key : (k : ℕ) (xs : List A) (x : A) → find_by k xs ≡ some x → key x ≡ k
  unfolding find_by
  find_by-key k [] x h = cc
  find_by-key k (y ∷ xs) x h = ground (arith, find_by-key k xs x)

  pub count_by_absent :
      (k : ℕ) (q : A → Bool) (xs : List A) → find_by k xs ≡ none → count_by k q xs ≡ 0
  unfolding find_by count_by
  count_by_absent k q [] h = refl
  count_by_absent k q (x ∷ xs) h = ground (arith, count_by_absent k q xs)

  -- At a unique key the count is 1 exactly when the row is there and passes the filter.
  pub count_by_unique :
      (k : ℕ) (q : A → Bool) (xs : List A)
      → IsUnique xs
      → count_by k q xs ≡ (if passes q (find_by k xs) then 1 else 0)
  unfolding find_by count_by
  count_by_unique k q [] u = refl
  count_by_unique k q (x ∷ xs) u =
      ground (arith, count_by_unique k q xs u.1, count_by_absent k q xs)

  -- A row that is found stays found when rows are appended.
  pub find_by-append :
      (k : ℕ) (xs ys : List A) (x : A) → find_by k xs ≡ some x → find_by k (xs ++ ys) ≡ some x
  unfolding find_by
  find_by-append k [] ys x h = cc
  find_by-append k (y ∷ xs) ys x h = ground (arith, find_by-append k xs ys x)

  -- A row that is absent is looked for among the rows that are appended.
  pub find_by-append_none :
      (k : ℕ) (xs ys : List A) → find_by k xs ≡ none → find_by k (xs ++ ys) ≡ find_by k ys
  unfolding find_by
  find_by-append_none k [] ys h = refl
  find_by-append_none k (x ∷ xs) ys h = ground (arith, find_by-append_none k xs ys)
