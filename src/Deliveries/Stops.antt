-- ===== src/Deliveries/Stops.antt =====
-- src/modules/deliveries/services/delivery-stops.service.ts.
use be_distribution_system_a.Prelude.{
  ℕ, Bool, false, not, ◌&&◌, Option, none, some, List, [], ◌∷◌, ◌==◌, if◌then◌else◌, is_some_of,
}
use be_distribution_system_a.Prelude.Table.{update_by, count_by}
use be_distribution_system_a.Deliveries.Model.{
  DeliveryStatus, StopStatus, pending, arrived, unloading, skipped, is_terminal, is_stop_status,
  one_of, is_driver, is_owner, DeliveryActor, Delivery, DeliveryStop, stop_failed, stop_skipped,
}
use be_distribution_system_a.Deliveries.World.{
  World, delivery_room, stop_status_changed, ErrorCode, resource_forbidden, stop_not_found,
  invalid_delivery_state, invalid_state_transition, record_not_found, Action, ok, pure, throw, gets,
  or_throw, ◌>>=◌, ◌>>◌, throw_if, stop_key, find_delivery, find_stop, log_event, emit,
}
use be_distribution_system_a.Deliveries.Service.{driver_actor}
use be_distribution_system_a.Deliveries.Completion.{complete_delivery_if_eligible}

-- A stop with its delivery: `include: { delivery: true }`.
pub record LoadedStop : Type 0 where
  pub stop : DeliveryStop
  pub delivery : Delivery

abbrev pub with_delivery : DeliveryStop → Option Delivery → Option LoadedStop
with_delivery s none = none
with_delivery s (some d) = some (record { stop = s; delivery = d })

abbrev pub load_joined : World → Option DeliveryStop → Option LoadedStop
load_joined w none = none
load_joined w (some s) = with_delivery s (find_delivery s.delivery_id w)

unfoldable pub load_stop : ℕ → World → Option LoadedStop
load_stop k w = load_joined w (find_stop k w)

-- `if (actorDriverId) { if (stop.delivery.driverId !== actorDriverId) … }`
abbrev pub is_foreign : Option ℕ → Delivery → Bool
is_foreign none d = false
is_foreign (some k) d = not (is_some_of k d.driver_id)

unfoldable pub get_stop_and_verify_driver : ℕ → Option ℕ → Action LoadedStop
get_stop_and_verify_driver k driver_id = do
  s ← or_throw (← gets (load_stop k)) stop_not_found
  throw_if (is_foreign driver_id s.delivery) resource_forbidden
  pure s

unfoldable pub ensure_delivery_operational : DeliveryStatus → Action (Unit {0})
ensure_delivery_operational status = throw_if (is_terminal status) invalid_delivery_state

abbrev is_open : Option Delivery → Bool
is_open none = false
is_open (some d) = not (is_terminal d.status)

-- `{ status: expected, delivery: { status: { notIn: TERMINAL_DELIVERY_STATUSES } } }`
abbrev pub may_move : World → List StopStatus → DeliveryStop → Bool
may_move w expected s = one_of expected s.status && is_open (find_delivery s.delivery_id w)

-- The code of the exception after a claim that failed.
abbrev pub refusal : Option LoadedStop → ErrorCode
refusal none = invalid_state_transition
refusal (some s) =
    if is_terminal s.delivery.status then invalid_delivery_state else invalid_state_transition

-- `deliveryStop.updateMany`; the result is whether its count is 1.
unfoldable pub claim_stop : ℕ → List StopStatus → (DeliveryStop → DeliveryStop) → Action Bool
claim_stop k expected f w = (
  ok (count_by stop_key k (may_move w expected) w.stops == 1),
  record w { stops = update_by stop_key k (may_move w expected) f w.stops },
)

unfoldable pub update_stop_if_operational :
    ℕ → List StopStatus → (DeliveryStop → DeliveryStop) → Action LoadedStop
update_stop_if_operational k expected f = do
  claimed ← claim_stop k expected f
  current ← gets (load_stop k)
  throw_if (not claimed) (refusal current)
  or_throw current record_not_found

-- broadcastStopStatusChanged
abbrev pub broadcast_stop_status_changed : ℕ → ℕ → StopStatus → DeliveryActor → Action (Unit {0})
broadcast_stop_status_changed delivery_id k s actor =
    emit (delivery_room delivery_id) (stop_status_changed delivery_id k s) actor

abbrev pub set_status : StopStatus → DeliveryStop → DeliveryStop
set_status s stop = record stop { status = s }

abbrev pub set_arrived : ℕ → DeliveryStop → DeliveryStop
set_arrived now stop = record stop { status = arrived; arrived_at = some now }

abbrev pub set_finished : StopStatus → ℕ → DeliveryStop → DeliveryStop
set_finished s now stop = record stop { status = s; completed_at = some now }

abbrev pub throw_if_not_en_route : LoadedStop → Action (Unit {0})
throw_if_not_en_route s = elim s.delivery.status [
  | DeliveryStatus.en_route ↦ pure tt
  | _ ↦ throw invalid_delivery_state
]

unfoldable pub depart_to_stop : ℕ → ℕ → ℕ → Action LoadedStop
depart_to_stop k driver_id user_id = do
  s ← get_stop_and_verify_driver k (some driver_id)
  throw_if_not_en_route s
  throw_if (not (is_stop_status pending s.stop.status)) invalid_state_transition
  updated ← update_stop_if_operational k (pending ∷ []) (set_status StopStatus.en_route)
  broadcast_stop_status_changed s.stop.delivery_id k StopStatus.en_route
      (driver_actor driver_id user_id)
  pure updated

unfoldable pub arrive_at_stop : ℕ → ℕ → ℕ → ℕ → Action LoadedStop
arrive_at_stop k driver_id user_id now = do
  s ← get_stop_and_verify_driver k (some driver_id)
  throw_if_not_en_route s
  throw_if (not (one_of (StopStatus.en_route ∷ pending ∷ []) s.stop.status))
      invalid_state_transition
  updated ← update_stop_if_operational k (StopStatus.en_route ∷ pending ∷ []) (set_arrived now)
  broadcast_stop_status_changed s.stop.delivery_id k arrived (driver_actor driver_id user_id)
  pure updated

unfoldable pub start_unloading : ℕ → ℕ → ℕ → Action LoadedStop
start_unloading k driver_id user_id = do
  s ← get_stop_and_verify_driver k (some driver_id)
  ensure_delivery_operational s.delivery.status
  throw_if (not (is_stop_status arrived s.stop.status)) invalid_state_transition
  updated ← update_stop_if_operational k (arrived ∷ []) (set_status unloading)
  broadcast_stop_status_changed s.stop.delivery_id k unloading (driver_actor driver_id user_id)
  pure updated

-- `{ in: ['ARRIVED', 'UNLOADING', 'EN_ROUTE'] }`
abbrev pub failable : List StopStatus
failable = arrived ∷ unloading ∷ StopStatus.en_route ∷ []

unfoldable pub fail_stop : ℕ → Option ℕ → ℕ → ℕ → ℕ → Action LoadedStop
fail_stop k reason driver_id user_id now = do
  s ← get_stop_and_verify_driver k (some driver_id)
  ensure_delivery_operational s.delivery.status
  throw_if (not (one_of failable s.stop.status)) invalid_state_transition
  updated ← update_stop_if_operational k failable (set_finished StopStatus.failed now)
  log_event s.stop.delivery_id k (stop_failed reason) user_id
  broadcast_stop_status_changed s.stop.delivery_id k StopStatus.failed
      (driver_actor driver_id user_id)
  complete_delivery_if_eligible s.stop.delivery_id (driver_actor driver_id user_id) now
  pure updated

-- `actor.role === 'DRIVER' ? actor.driverId : undefined`
abbrev pub verified_driver : DeliveryActor → Option ℕ
verified_driver actor = if is_driver actor.role then actor.driver_id else none

unfoldable pub skip_stop : ℕ → Option ℕ → DeliveryActor → ℕ → Action LoadedStop
skip_stop k reason actor now = do
  s ← get_stop_and_verify_driver k (verified_driver actor)
  throw_if (is_owner actor.role && not (s.delivery.created_by == actor.user_id)) resource_forbidden
  ensure_delivery_operational s.delivery.status
  throw_if (not (is_stop_status pending s.stop.status)) invalid_state_transition
  updated ← update_stop_if_operational k (pending ∷ []) (set_status skipped)
  log_event s.stop.delivery_id k (stop_skipped reason) actor.user_id
  broadcast_stop_status_changed s.stop.delivery_id k skipped actor
  complete_delivery_if_eligible s.stop.delivery_id actor now
  pure updated
