-- ===== src/Deliveries/Inversion.antt =====
-- What a successful chain of effects has passed through.
use be_distribution_system_a.Prelude.{◌≡◌, refl, ap}
use be_distribution_system_a.Deliveries.World.{World, Action, Result, ok, err, ◌>>=◌, transaction}

module _ {ℓ κ} {A : Type ℓ} {B : Type κ} where
  split_result :
      (r : Result A) (v : World) (f : A → Action B) (b : B) (w' : World)
      → (elim r as (λ _. Result B × World) [ ok a ↦ f a v | err e ↦ (err e, v) ]) ≡ (ok b, w')
      → (a : A) × (r ≡ ok a) × (f a v ≡ (ok b, w'))
  split_result (ok a) v f b w' h = (a, refl, h)
  split_result (err e) v f b w' h = cc

  -- `m` has answered `a` and left `v`, and what follows it went on from there.
  pub bind-ok :
      (m : Action A) (f : A → Action B) (w : World) (b : B) (w' : World)
      → (m >>= f) w ≡ (ok b, w')
      → (a : A) × ((m w).0 ≡ ok a) × (f a (m w).1 ≡ (ok b, w'))
  bind-ok m f w b w' h = split_result (m w).0 (m w).1 f b w' h

module _ {ℓ} {A : Type ℓ} where
  split_rollback :
      (r : Result A) (v w : World) (a : A) (w' : World)
      → (elim r as (λ _. Result A × World) [ ok a ↦ (ok a, v) | err e ↦ (err e, w) ]) ≡ (ok a, w')
      → (r ≡ ok a) × (v ≡ w')
  split_rollback (ok b) v w a w' h =
      (ap (λ (p : Result A × World). p.0) h, ap (λ (p : Result A × World). p.1) h)
  split_rollback (err e) v w a w' h = cc

  pub transaction-ok :
      (m : Action A) (w : World) (a : A) (w' : World)
      → transaction m w ≡ (ok a, w')
      → ((m w).0 ≡ ok a) × ((m w).1 ≡ w')
  transaction-ok m w a w' h = split_rollback (m w).0 (m w).1 w a w' h
