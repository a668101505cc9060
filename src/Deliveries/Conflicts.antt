-- ===== src/Deliveries/Conflicts.antt =====
-- src/modules/deliveries/services/delivery-conflicts.service.ts: syncOutbox and resolveConflict.
pub mod Evidence
pub mod Resolving
use be_distribution_system_a.Prelude.{
  ℕ, zero, suc, Bool, true, false, not, ◌&&◌, Option, none, some, List, [], ◌∷◌, ◌++◌, ◌==◌,
  if◌then◌else◌, any, all,
}
use mathlib.Core.Option
use be_distribution_system_a.Prelude.Table.{find_by, find_many, update_by}
use be_distribution_system_a.Deliveries.Model.{
  DeliveryStatus, completed, cancelled, delivered, is_finished, is_delivery_status, is_driver, Role,
  driver, ConflictStatus, open_ticket, resolved_overridden, DeliveryActor, DeliveryStop,
  ProofOfDelivery, ReceiverName, named, offline_receiver, Notes, override_notes, conflict_resolved,
  SubmitPodDto, OutboxEventType, depart, arrive, unload, pod, unknown_event, OutboxPayload,
  OutboxEventItem, DeliveryConflict,
}
use be_distribution_system_a.Deliveries.World.{
  World, ErrorCode, forbidden, conflict_not_found, conflict_already_resolved, record_not_found,
  Action, Result, ok, err, pure, throw, gets, or_throw, transaction, ◌>>=◌, ◌>>◌, throw_if, modify,
  stop_key, stop_delivery, find_stop, audit,
}
use be_distribution_system_a.Deliveries.Service.{driver_actor, update_delivery}
use be_distribution_system_a.Deliveries.Completion.{is_delivered, finish_as}
use be_distribution_system_a.Deliveries.Stops.{
  LoadedStop, load_stop, depart_to_stop, arrive_at_stop, start_unloading, set_finished,
}
use be_distribution_system_a.Deliveries.Pod.{PodRequest, submit_pod, pod_key, find_pod}

-- Who syncs, and what is generated for the event at each index: the id of its ticket or its POD.
pub record SyncContext : Type 0 where
  pub driver_id : ℕ
  pub user_id : ℕ
  pub uuid : ℕ → ℕ
  pub endpoint : ℕ
  pub now : ℕ

abbrev or_else : Option ℕ → Option ℕ → Option ℕ
or_else none b = b
or_else (some a) b = some a

-- `payload.deliveryStopId || payload.stopId`
abbrev pub stop_of : OutboxPayload → Option ℕ
stop_of p = or_else p.delivery_stop_id p.stop_id

abbrev receiver_or_offline : Option ℕ → ReceiverName
receiver_or_offline none = offline_receiver
receiver_or_offline (some n) = named n

pod_request : SyncContext → ℕ → ℕ → OutboxEventItem → PodRequest
pod_request c i stop_id item = record {
  stop_id = stop_id;
  dto = record {
    receiver_name = receiver_or_offline item.payload.receiver_name;
    photo_file_id = item.payload.photo_file_id;
    signature_file_id = item.payload.signature_file_id;
    notes = item.payload.notes;
    idempotency_key = item.idempotency_key;
  };
  actor = driver_actor c.driver_id c.user_id;
  endpoint = c.endpoint;
  pod_id = c.uuid i;
  now = c.now;
}

-- The standard events by their type.
unfoldable pub process_event :
    SyncContext → ℕ → OutboxEventItem → OutboxEventType → Option ℕ → Action (Unit {0})
unfolding pod_request
process_event c i item depart (some k) = depart_to_stop k c.driver_id c.user_id >>= λ _. pure tt
process_event c i item arrive (some k) =
    arrive_at_stop k c.driver_id c.user_id c.now >>= λ _. pure tt
process_event c i item unload (some k) = start_unloading k c.driver_id c.user_id >>= λ _. pure tt
process_event c i item pod (some k) = submit_pod (pod_request c i k item) >>= λ _. pure tt
process_event c i item _ _ = pure tt

-- What the loop pushes for an event: `acked`, or `conflicts` with the ticket's id.
pub data Outcome : Type 0 where
  acked : Outcome
  conflicting : ℕ → Outcome

-- `stop && stop.delivery.status === 'CANCELLED'`, with the stop.
abbrev pub cancelled_stop : Option LoadedStop → Option LoadedStop
cancelled_stop none = none
cancelled_stop (some s) = if is_delivery_status cancelled s.delivery.status then some s else none

abbrev pub load_of : World → Option ℕ → Option LoadedStop
load_of w none = none
load_of w (some k) = load_stop k w

unfoldable pub new_conflict : ℕ → ℕ → OutboxEventItem → DeliveryConflict
new_conflict id delivery_id item = record {
  id = id;
  delivery_id = delivery_id;
  client_event_id = item.client_event_id;
  client_payload = item;
  status = open_ticket;
  resolved_by = none;
  resolution_notes = none;
  resolved_at = none;
}

unfoldable pub sync_loaded : SyncContext → ℕ → OutboxEventItem → Option LoadedStop → Action Outcome
unfolding new_conflict
sync_loaded c i item (some s) = do
  modify λ w. record w {
    conflicts = w.conflicts ++ new_conflict (c.uuid i) s.stop.delivery_id item ∷ [];
  }
  pure (conflicting (c.uuid i))
sync_loaded c i item none = do
  process_event c i item item.event_type (stop_of item.payload)
  pure acked

-- The body of the `try` for one event.
unfoldable pub sync_event : SyncContext → ℕ → OutboxEventItem → Action Outcome
sync_event c i item = do
  s ← gets (λ w. cancelled_stop (load_of w (stop_of item.payload)))
  sync_loaded c i item s

-- `{ acked, conflicts }`
pub record SyncReport : Type 0 where
  pub acked_ids : List ℕ
  pub conflict_ids : List (ℕ × ℕ)

-- The `catch` logs, and nothing is pushed.
abbrev pub tally : OutboxEventItem → Result Outcome → SyncReport → SyncReport
tally item (ok acked) r = record r { acked_ids = r.acked_ids ++ item.client_event_id ∷ [] }
tally item (ok (conflicting k)) r = record r {
  conflict_ids = r.conflict_ids ++ (item.client_event_id, k) ∷ [];
}
tally item (err e) r = r

unfoldable pub sync_from :
    SyncContext → ℕ → List OutboxEventItem → SyncReport → World → SyncReport × World
sync_from c i [] r w = (r, w)
sync_from c i (item ∷ items) r w =
    let (outcome, w') = sync_event c i item w in sync_from c (suc i) items (tally item outcome r) w'

unfoldable pub sync_outbox : SyncContext → List OutboxEventItem → World → SyncReport × World
sync_outbox c items w = sync_from c 0 items (record { acked_ids = []; conflict_ids = [] }) w

abbrev pub conflict_key : DeliveryConflict → ℕ
conflict_key c = c.id

abbrev pub is_open : ConflictStatus → Bool
is_open open_ticket = true
is_open _ = false

-- `proofOfDelivery.upsert` at the stop's unique index.
unfoldable pub upsert_pod : ℕ → ProofOfDelivery → Action (Unit {0})
upsert_pod stop_id p = modify λ w. record w {
  pods = elim (find_pod stop_id w) [
    | some _ ↦
        update_by pod_key stop_id (λ _. true)
          (λ old. record old {
            receiver_name = p.receiver_name;
            photo_file_id = p.photo_file_id;
            notes = p.notes;
          })
          w.pods
    | none ↦ w.pods ++ p ∷ []
  ];
}

-- Who resolves a ticket, and when; `pod_id` is the id of a POD that is created.
pub record Resolution : Type 0 where
  pub status : ConflictStatus
  pub notes : Option ℕ
  pub user_id : ℕ
  pub role : Role
  pub pod_id : ℕ
  pub now : ℕ

override_pod : Resolution → ℕ → ℕ → OutboxPayload → ProofOfDelivery
override_pod z stop_id receiver p = record {
  id = z.pod_id;
  delivery_stop_id = stop_id;
  receiver_name = named receiver;
  signature_file_id = none;
  photo_file_id = p.photo_file_id;
  notes = some (override_notes z.user_id);
  completed_at = z.now;
  created_by = z.user_id;
}

-- `if (eventPayload.receiverName) { … }`
unfoldable pub override_evidence : Resolution → ℕ → OutboxPayload → Option ℕ → Action (Unit {0})
unfolding override_pod
override_evidence z stop_id p none = pure tt
override_evidence z stop_id p (some receiver) =
    upsert_pod stop_id (override_pod z stop_id receiver p)

abbrev is_present {ℓ} : {A : Type ℓ} → Option A → Bool
is_present none = false
is_present (some a) = true

-- `deliveryStop.update({ where: { id }, data: { status: 'DELIVERED', … } })`
unfoldable pub force_delivered : ℕ → ℕ → Action (Unit {0})
force_delivered stop_id now = do
  throw_if (not (is_present (← gets (find_stop stop_id)))) record_not_found
  modify λ w. record w {
    stops = update_by stop_key stop_id (λ _. true) (set_finished delivered now) w.stops;
  }

-- `allTerminal && hasDelivered`
abbrev pub all_done : List DeliveryStop → Bool
all_done ss = all (λ s. is_finished s.status) ss && any is_delivered ss

abbrev pub complete_if : Bool → ℕ → ℕ → Action (Unit {0})
complete_if true k now = update_delivery k (finish_as completed now) >>= λ _. pure tt
complete_if false k now = pure tt

-- The evaluation of the delivery's completion.
unfoldable pub complete_if_done : ℕ → ℕ → Action (Unit {0})
complete_if_done k now =
    gets (λ w. all_done (find_many stop_delivery k w.stops)) >>= λ done. complete_if done k now

-- Step 2 of the transaction, at a stop that the payload names.
unfoldable pub override_stop : Resolution → DeliveryConflict → Option ℕ → Action (Unit {0})
override_stop z c none = pure tt
override_stop z c (some stop_id) =
    override_evidence z stop_id c.client_payload.payload c.client_payload.payload.receiver_name
    >> (force_delivered stop_id z.now >> complete_if_done c.delivery_id z.now)

abbrev pub override_if : ConflictStatus → Resolution → DeliveryConflict → Action (Unit {0})
override_if resolved_overridden z c = override_stop z c (stop_of c.client_payload.payload)
override_if _ z c = pure tt

abbrev pub resolved_row : Resolution → DeliveryConflict → DeliveryConflict
resolved_row z c = record c {
  status = z.status;
  resolved_by = some z.user_id;
  resolution_notes = z.notes;
  resolved_at = some z.now;
}

-- The body of the transaction of `resolveConflict`.
unfoldable pub resolve_rows : ℕ → Resolution → DeliveryConflict → Action DeliveryConflict
resolve_rows k z c = do
  modify λ w. record w {
    conflicts = update_by conflict_key k (λ _. true) (resolved_row z) w.conflicts;
  }
  updated ← or_throw (← gets (λ w. find_by conflict_key k w.conflicts)) record_not_found
  override_if z.status z c
  audit z.user_id (conflict_resolved z.status z.notes) k
  pure updated

unfoldable pub resolve_conflict : ℕ → Resolution → Action DeliveryConflict
resolve_conflict k z = do
  throw_if (is_driver z.role) forbidden
  c ← or_throw (← gets (λ w. find_by conflict_key k w.conflicts)) conflict_not_found
  throw_if (not (is_open c.status)) conflict_already_resolved
  transaction (resolve_rows k z c)
