-- ===== src/Deliveries/Completion.antt =====
-- The completion and cancellation of deliveries.service.ts: completeDelivery, cancelDelivery,
-- evaluateDeliveryCompletion and completeDeliveryIfEligible.
use be_distribution_system_a.Prelude.{
  ℕ, Bool, true, false, not, Option, none, some, List, [], ◌∷◌, if◌then◌else◌, any,
}
use be_distribution_system_a.Prelude.Table.{find_many}
use be_distribution_system_a.Deliveries.Model.{
  DeliveryStatus, completed, cancelled, delivered, is_terminal, is_finished, is_stop_status,
  is_delivery_status, DeliveryActor, Delivery, DeliveryStop, AuditAction, delivery_completed,
  delivery_failed, delivery_cancelled,
}
use be_distribution_system_a.Deliveries.World.{
  World, invalid_state_transition, terminal_state_cannot_be_cancelled, unfinished_stops_remain,
  record_not_found, Action, ok, pure, throw, gets, or_throw, transaction, ◌>>=◌, ◌>>◌, throw_if,
  stop_delivery, find_delivery, audit,
}
use be_distribution_system_a.Deliveries.Service.{
  get_delivery_by_id, claim_delivery, broadcast_status_changed,
}

-- What `evaluateDeliveryCompletion` returns: `{ completed: false }`, with the unfinished stops if
-- there are any, or `{ completed: true, targetStatus }`.
pub data Evaluation : Type 0 where
  not_completed : Option (List DeliveryStop) → Evaluation
  eligible : DeliveryStatus → Evaluation

-- `stops.filter((s) => !terminalStatuses.has(s.status))`
unfoldable pub unfinished_stops : List DeliveryStop → List DeliveryStop
unfinished_stops [] = []
unfinished_stops (s ∷ ss) =
    let rest = unfinished_stops ss in if is_finished s.status then rest else s ∷ rest

abbrev pub is_delivered : DeliveryStop → Bool
is_delivered s = is_stop_status delivered s.status

-- The evaluation of the stops that were read.
unfoldable pub evaluate_stops : List DeliveryStop → Evaluation
evaluate_stops [] = not_completed none
evaluate_stops (s ∷ ss) = elim (unfinished_stops (s ∷ ss)) [
  | [] ↦ eligible (if any is_delivered (s ∷ ss) then completed else DeliveryStatus.failed)
  | u ∷ us ↦ not_completed (some (u ∷ us))
]

unfoldable pub evaluate_delivery_completion : ℕ → World → Evaluation
evaluate_delivery_completion k w = evaluate_stops (find_many stop_delivery k w.stops)

-- `{ id: deliveryId, status: 'EN_ROUTE' }`
abbrev pub is_en_route : Delivery → Bool
is_en_route d = is_delivery_status DeliveryStatus.en_route d.status

-- `{ status, completedAt: new Date() }`
abbrev pub finish_as : DeliveryStatus → ℕ → Delivery → Delivery
finish_as target now d = record d { status = target; completed_at = some now }

abbrev pub or_unfinished : Evaluation → Action DeliveryStatus
or_unfinished (not_completed stops) = throw (unfinished_stops_remain stops)
or_unfinished (eligible target) = pure target

abbrev pub completion_audit : DeliveryStatus → AuditAction
completion_audit completed = delivery_completed
completion_audit _ = delivery_failed

-- The transaction of `completeDelivery` once the stops have been evaluated.
unfoldable pub complete_target : ℕ → DeliveryActor → ℕ → DeliveryStatus → Action Delivery
complete_target k actor now target = do
  throw_if (not (← claim_delivery k is_en_route (finish_as target now))) invalid_state_transition
  result ← or_throw (← gets (find_delivery k)) record_not_found
  audit actor.user_id (completion_audit target) k
  pure result

-- The body of the transaction of `completeDelivery`.
unfoldable pub complete_rows : ℕ → DeliveryActor → ℕ → Action Delivery
complete_rows k actor now =
    gets (evaluate_delivery_completion k) >>= λ e. or_unfinished e >>= complete_target k actor now

pub data Completed : Type 0 where
  already_completed : ℕ → Completed
  updated_row : Delivery → Completed

unfoldable pub write_complete : ℕ → DeliveryActor → ℕ → Action Completed
write_complete k actor now = do
  updated ← transaction (complete_rows k actor now)
  broadcast_status_changed k updated.status actor
  pure (updated_row updated)

-- The rest of `completeDelivery` after its read.
unfoldable pub complete_found : ℕ → DeliveryActor → ℕ → Delivery → Action Completed
complete_found k actor now d =
    if is_delivery_status completed d.status
    then pure (already_completed k)
    else (throw_if (not (is_en_route d)) invalid_state_transition >> write_complete k actor now)

unfoldable pub complete_delivery : ℕ → DeliveryActor → ℕ → Action Completed
complete_delivery k actor now = get_delivery_by_id k actor >>= complete_found k actor now

-- `{ id: deliveryId, status: { notIn: TERMINAL_DELIVERY_STATUSES } }`
abbrev pub is_operational : Delivery → Bool
is_operational d = not (is_terminal d.status)

abbrev pub set_cancelled : Delivery → Delivery
set_cancelled d = record d { status = cancelled }

-- The body of the transaction of `cancelDelivery`.
unfoldable pub cancel_rows : ℕ → ℕ → DeliveryActor → Action Delivery
cancel_rows k reason actor = do
  throw_if (not (← claim_delivery k is_operational set_cancelled))
      terminal_state_cannot_be_cancelled
  result ← or_throw (← gets (find_delivery k)) record_not_found
  audit actor.user_id (delivery_cancelled reason) k
  pure result

unfoldable pub write_cancel : ℕ → ℕ → DeliveryActor → Action Delivery
write_cancel k reason actor = do
  updated ← transaction (cancel_rows k reason actor)
  broadcast_status_changed k cancelled actor
  pure updated

unfoldable pub cancel_delivery : ℕ → ℕ → DeliveryActor → Action Delivery
cancel_delivery k reason actor = get_delivery_by_id k actor >>= λ _. write_cancel k reason actor

-- `try { … } catch (err) { this.logger.warn(…) }`
abbrev pub swallow : Action (Unit {0}) → Action (Unit {0})
swallow m w = (ok tt, (m w).1)

abbrev pub claimed_row : ℕ → Bool → World → Option Delivery
claimed_row k true w = find_delivery k w
claimed_row k false w = none

-- The body of the transaction of `completeDeliveryIfEligible`; `none` is its `null`.
unfoldable pub auto_complete_rows : ℕ → ℕ → Evaluation → Action (Option Delivery)
auto_complete_rows k now (not_completed stops) = pure none
auto_complete_rows k now (eligible target) = do
  claimed ← claim_delivery k is_en_route (finish_as target now)
  gets (claimed_row k claimed)

abbrev pub broadcast_if_updated : ℕ → DeliveryActor → Option Delivery → Action (Unit {0})
broadcast_if_updated k actor none = pure tt
broadcast_if_updated k actor (some d) = broadcast_status_changed k d.status actor

unfoldable pub complete_delivery_if_eligible : ℕ → DeliveryActor → ℕ → Action (Unit {0})
complete_delivery_if_eligible k actor now = swallow (
    transaction (gets (evaluate_delivery_completion k) >>= auto_complete_rows k now)
    >>= broadcast_if_updated k actor)
