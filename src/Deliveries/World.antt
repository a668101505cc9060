-- ===== src/Deliveries/World.antt =====
-- The database and the realtime gateway as the delivery services see them, and the effects of a
-- request: state, exceptions and transactions. An exception leaves what was already written,
-- unless a transaction is rolled back.
use be_distribution_system_a.Prelude.{
  ℕ, Bool, Option, none, some, List, [], ◌∷◌, ◌++◌, if◌then◌else◌,
}
use be_distribution_system_a.Prelude.Table.{find_by}
use be_distribution_system_a.Deliveries.Model.{
  DeliveryStatus, StopStatus, DeliveryActor, Delivery, DeliveryItem, DeliveryStop, ProofOfDelivery,
  DeliveryEvent, EventType, AuditLog, AuditAction, IdempotencyRecord, DeliveryConflict,
}

pub data Room : Type 0 where
  delivery_room : ℕ → Room
  fleet_monitoring : Room

-- The payload of an event; an envelope's ids and timestamp are left out.
pub data Payload : Type 0 where
  status_changed : ℕ → DeliveryStatus → Payload
  stop_status_changed : ℕ → ℕ → StopStatus → Payload
  pod_created : ℕ → ℕ → Option ℕ → Payload

-- `server.to(room).emit(event, envelope)`
pub record Emission : Type 0 where
  pub room : Room
  pub payload : Payload
  pub actor : DeliveryActor

pub record World : Type 0 where
  pub deliveries : List Delivery
  pub items : List DeliveryItem
  pub stops : List DeliveryStop
  pub pods : List ProofOfDelivery
  pub events : List DeliveryEvent
  pub audit_logs : List AuditLog
  pub idempotency_records : List IdempotencyRecord
  pub conflicts : List DeliveryConflict
  pub drivers : List ℕ
  pub vehicles : List ℕ
  pub emitted : List Emission
  pub gateway_up : Bool

-- The codes of the exceptions; the last two are Prisma's P2025 and P2002.
pub data ErrorCode : Type 0 where
  delivery_not_found resource_forbidden duplicate_delivery_code invalid_state_transition : ErrorCode
  driver_not_found vehicle_not_found terminal_state_cannot_be_cancelled stop_not_found : ErrorCode
  invalid_delivery_state forbidden conflict_not_found conflict_already_resolved : ErrorCode
  insufficient_role driver_profile_required : ErrorCode
  unfinished_stops_remain : Option (List DeliveryStop) → ErrorCode
  record_not_found unique_constraint : ErrorCode

pub data Result {ℓ} (A : Type ℓ) : Type ℓ where
  ok : A → Result A
  err : ErrorCode → Result A

abbrev pub Action {ℓ} : Type ℓ → Type ℓ
Action A = World → Result A × World

module _ {ℓ} {A : Type ℓ} where
  abbrev pub pure : A → Action A
  pure a w = (ok a, w)

  abbrev pub throw : ErrorCode → Action A
  throw e w = (err e, w)

  abbrev pub gets : (World → A) → Action A
  gets f w = (ok (f w), w)

  abbrev pub or_throw : Option A → ErrorCode → Action A
  or_throw none e = throw e
  or_throw (some a) e = pure a

  -- `$transaction`: an exception rolls every write back.
  abbrev pub transaction : Action A → Action A
  transaction m w = let (r, w') = m w in elim r [ ok a ↦ (ok a, w') | err e ↦ (err e, w) ]

infixl 5 ◌>>=◌ ◌>>◌
abbrev pub ◌>>=◌ {ℓ κ} : {A : Type ℓ} {B : Type κ} → Action A → (A → Action B) → Action B
◌>>=◌ m f w = let (r, w') = m w in elim r [ ok a ↦ f a w' | err e ↦ (err e, w') ]

abbrev pub ◌>>◌ {ℓ} : {B : Type ℓ} → Action (Unit {0}) → Action B → Action B
m >> k = m >>= λ _. k

abbrev pub throw_if : Bool → ErrorCode → Action (Unit {0})
throw_if c e w = (if c then err e else ok tt, w)

abbrev pub modify : (World → World) → Action (Unit {0})
modify f w = (ok tt, f w)

abbrev pub delivery_key : Delivery → ℕ
delivery_key d = d.id

abbrev pub stop_key : DeliveryStop → ℕ
stop_key s = s.id

abbrev pub stop_delivery : DeliveryStop → ℕ
stop_delivery s = s.delivery_id

abbrev pub find_delivery : ℕ → World → Option Delivery
find_delivery k w = find_by delivery_key k w.deliveries

abbrev pub find_stop : ℕ → World → Option DeliveryStop
find_stop k w = find_by stop_key k w.stops

-- `auditLog.create`
abbrev pub audit : ℕ → AuditAction → ℕ → Action (Unit {0})
audit actor action entity w = (
  ok tt,
  record w {
    audit_logs =
        w.audit_logs ++ record { actor_user_id = actor; action = action; entity_id = entity } ∷ [];
  },
)

-- `deliveryEvent.create`
abbrev pub log_event : ℕ → ℕ → EventType → ℕ → Action (Unit {0})
log_event delivery_id stop_id type actor w = (
  ok tt,
  record w {
    events =
        w.events
        ++ record {
          delivery_id = delivery_id;
          stop_id = stop_id;
          event_type = type;
          actor_user_id = actor;
        }
          ∷ [];
  },
)

-- Nothing is sent while the gateway or its server is missing.
abbrev pub emit : Room → Payload → DeliveryActor → Action (Unit {0})
emit room payload actor w = (
  ok tt,
  if w.gateway_up
      then record w {
        emitted = w.emitted ++ record { room = room; payload = payload; actor = actor } ∷ [];
      }
      else w,
)
