-- ===== src/Deliveries/Evolution/Rules.antt =====
-- Which writes evolve the database, and how that is put together along a handler.
use be_distribution_system_a.Prelude.{
  ℕ, Bool, true, false, ◌&&◌, Option, none, some, ◌≡◌, refl, inl, inr, ◌==◌, arith, Bool-cases,
}
use be_distribution_system_a.Prelude.Table.{update_by, apply_if, find_by-update_by}
use be_distribution_system_a.Deliveries.Model.{
  is_terminal, Delivery, DeliveryStop, DeliveryActor, AuditAction, EventType,
}
use be_distribution_system_a.Deliveries.World.{
  World, Room, Payload, Action, Result, ErrorCode, ok, err, pure, throw, gets, or_throw, throw_if,
  audit, log_event, emit, transaction, ◌>>=◌, delivery_key, stop_key, find_delivery, find_stop,
}
use be_distribution_system_a.Deliveries.Evolution.{
  ◌⟶◌, stay, go, ◌⇝◌, rest, move, Evolves, Evolves-same, Evolves-trans,
}

-- What an update may do to a row that it changes.
abbrev pub MovesDelivery : (Delivery → Delivery) → Delivery → Type 0
MovesDelivery f d = (is_terminal d.status ≡ false) × (d.status ⟶ (f d).status)

pub record MovesStop (w : World) (f : DeliveryStop → DeliveryStop) (s : DeliveryStop) : Type 0 where
  pub same_delivery : (f s).delivery_id ≡ s.delivery_id
  pub edge : s.status ⇝ (f s).status
  pub still_open :
      (d : Delivery) → find_delivery s.delivery_id w ≡ some d → is_terminal d.status ≡ false

and_parts : (j k : ℕ) (b : Bool) → (j == k && b) ≡ true → (j ≡ k) × (b ≡ true)
and_parts j k b h = ground arith

module _ (w : World) (k : ℕ) (q : Delivery → Bool) (f : Delivery → Delivery) where
  after : World
  after = record w { deliveries = update_by delivery_key k q f w.deliveries }

  module _ (keeps : (d : Delivery) → (f d).id ≡ d.id)
      (moves : (d : Delivery) → find_delivery k w ≡ some d → q d ≡ true → MovesDelivery f d) where
    row_after :
        (j : ℕ) (d : Delivery)
        → find_delivery j w ≡ some d
        → find_delivery j after ≡ some (apply_if (j == k && q d) f d)
    unfolding after
    row_after j d h = ground (arith, find_by-update_by delivery_key j k q f w.deliveries keeps)

    row_moves :
        (j : ℕ) (d : Delivery)
        → find_delivery j w ≡ some d
        → (j == k && q d) ≡ true
        → MovesDelivery f d
    row_moves j d h e = let (same, passed) = and_parts j k (q d) e in moves d (rw (← same) h) passed

    -- An update whose filter admits only rows that may move so is an evolution.
    pub update_delivery-Evolves :
        Evolves w (record w { deliveries = update_by delivery_key k q f w.deliveries })
    unfolding after
    update_delivery-Evolves = record {
      delivery_moves = λ j d h. elim (Bool-cases (j == k && q d)) [
        | inl e ↦ (f d, (rw (row_after j d h, e)), go (row_moves j d h e).1 stay)
        | inr e ↦ (d, (rw (row_after j d h, e)), stay)
      ];
      delivery_closed = λ j d h t. elim (Bool-cases (j == k && q d)) [
        | inl e ↦ cc (row_moves j d h e).0
        | inr e ↦ rw (row_after j d h, e)
      ];
      stop_moves = λ j s h. (s, h, refl, rest);
      stop_frozen = λ j s d h g t. h;
    }

module _ (w : World) (k : ℕ) (q : DeliveryStop → Bool) (f : DeliveryStop → DeliveryStop) where
  with_stops : World
  with_stops = record w { stops = update_by stop_key k q f w.stops }

  module _ (keeps : (s : DeliveryStop) → (f s).id ≡ s.id)
      (moves : (s : DeliveryStop) → find_stop k w ≡ some s → q s ≡ true → MovesStop w f s) where
    stop_after :
        (j : ℕ) (s : DeliveryStop)
        → find_stop j w ≡ some s
        → find_stop j with_stops ≡ some (apply_if (j == k && q s) f s)
    unfolding with_stops
    stop_after j s h = ground (arith, find_by-update_by stop_key j k q f w.stops keeps)

    stop_row_moves :
        (j : ℕ) (s : DeliveryStop)
        → find_stop j w ≡ some s
        → (j == k && q s) ≡ true
        → MovesStop w f s
    stop_row_moves j s h e =
        let (same, passed) = and_parts j k (q s) e in moves s (rw (← same) h) passed

    -- An update of a stop whose filter admits only rows that may move so is an evolution.
    pub update_stop-Evolves : Evolves w (record w { stops = update_by stop_key k q f w.stops })
    unfolding with_stops
    update_stop-Evolves = record {
      delivery_moves = λ j d h. (d, h, stay);
      delivery_closed = λ j d h t. h;
      stop_moves = λ j s h. elim (Bool-cases (j == k && q s)) [
        | inl e ↦
            let m = stop_row_moves j s h e in
            (f s, (rw (stop_after j s h, e)), m.same_delivery, move m.edge rest)
        | inr e ↦ (s, (rw (stop_after j s h, e)), refl, rest)
      ];
      stop_frozen = λ j s d h g t. elim (Bool-cases (j == k && q s)) [
        | inl e ↦ cc ((stop_row_moves j s h e).still_open d g)
        | inr e ↦ rw (stop_after j s h, e)
      ];
    }

-- A handler that evolves the database, whatever it answers.
pub record Keeps {ℓ} {A : Type ℓ} (m : Action A) : Type 0 where
  pub at : (w : World) → Evolves w (m w).1

pub Evolves-refl : (w : World) → Evolves w w
Evolves-refl w = Evolves-same w w refl refl

module _ {ℓ κ} {A : Type ℓ} {B : Type κ} where
  bind_result :
      (w v : World) (r : Result A) (f : A → Action B)
      → Evolves w v
      → ((a : A) → r ≡ ok a → Evolves v (f a v).1)
      → Evolves w (elim r as (λ _. Result B × World) [ ok a ↦ f a v | err e ↦ (err e, v) ]).1
  bind_result w v (ok a) f e g = Evolves-trans w v _ e (g a refl)
  bind_result w v (err c) f e g = e

  -- A step and what follows it, which may rely on what the step answered.
  pub bind-Evolves :
      (m : Action A) (f : A → Action B) (w : World)
      → Evolves w (m w).1
      → ((a : A) → (m w).0 ≡ ok a → Evolves (m w).1 (f a (m w).1).1)
      → Evolves w ((m >>= f) w).1
  bind-Evolves m f w e g = bind_result w (m w).1 (m w).0 f e g

  pub bind-Keeps :
      {m : Action A} {f : A → Action B} → Keeps m → ((a : A) → Keeps (f a)) → Keeps (m >>= f)
  bind-Keeps {m} {f} e g = record {
    at = λ w. bind-Evolves m f w (e.at w) (λ a _. (g a).at (m w).1);
  }

module _ {ℓ} {A : Type ℓ} where
  rollback_result :
      (w v : World) (r : Result A)
      → Evolves w v
      → Evolves w (elim r as (λ _. Result A × World) [ ok a ↦ (ok a, v) | err e ↦ (err e, w) ]).1
  rollback_result w v (ok a) e = e
  rollback_result w v (err c) e = Evolves-refl w

  pub transaction-Keeps : {m : Action A} → Keeps m → Keeps (transaction m)
  transaction-Keeps {m} e = record { at = λ w. rollback_result w (m w).1 (m w).0 (e.at w) }

  pub pure-Keeps : (a : A) → Keeps (pure a)
  pure-Keeps a = record { at = Evolves-refl }

  pub throw-Keeps : (c : ErrorCode) → Keeps (throw {A = A} c)
  throw-Keeps c = record { at = Evolves-refl }

  pub gets-Keeps : (f : World → A) → Keeps (gets f)
  gets-Keeps f = record { at = Evolves-refl }

  -- A read, with what follows it at the value that it has.
  pub gets_then-Keeps {κ} :
      {B : Type κ} (f : World → A) (g : A → Action B)
      → ((w : World) → Keeps (g (f w)))
      → Keeps (gets f >>= g)
  gets_then-Keeps f g h = record { at = λ w. (h w).at w }

  pub or_throw-Keeps : (o : Option A) (c : ErrorCode) → Keeps (or_throw o c)
  or_throw-Keeps none c = throw-Keeps c
  or_throw-Keeps (some a) c = pure-Keeps a

pub throw_if-Keeps : (b : Bool) (c : ErrorCode) → Keeps (throw_if b c)
throw_if-Keeps b c = record { at = Evolves-refl }

pub audit-Keeps : (u : ℕ) (a : AuditAction) (k : ℕ) → Keeps (audit u a k)
audit-Keeps u a k = record { at = λ w. Evolves-same w _ refl refl }

pub log_event-Keeps : (k j : ℕ) (t : EventType) (u : ℕ) → Keeps (log_event k j t u)
log_event-Keeps k j t u = record { at = λ w. Evolves-same w _ refl refl }

pub emit-Keeps : (r : Room) (p : Payload) (a : DeliveryActor) → Keeps (emit r p a)
emit-Keeps r p a = record { at = λ w. Evolves-same w _ (ground arith) (ground arith) }

pub ruleset keeping = (
  bind-Keeps, transaction-Keeps, pure-Keeps, throw-Keeps, gets-Keeps, or_throw-Keeps,
  throw_if-Keeps, audit-Keeps, log_event-Keeps, emit-Keeps,
)
