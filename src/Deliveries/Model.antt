-- ===== src/Deliveries/Model.antt =====
-- The rows that the delivery services read and write (prisma/schema.prisma), the requests' DTOs
-- and the actor. Ids, codes, names and addresses are only compared and copied, so they are numbers;
-- an id is never the empty string. Times are milliseconds.
use be_distribution_system_a.Prelude.{
  ℕ, Angle, Bool, true, false, ◌||◌, Option, List, [], ◌∷◌, ◌==◌,
}

-- enum DeliveryStatus
pub data DeliveryStatus : Type 0 where
  draft assigned accepted en_route completed cancelled failed : DeliveryStatus

-- enum StopStatus
pub data StopStatus : Type 0 where
  pending en_route arrived unloading delivered failed skipped : StopStatus

pub data Role : Type 0 where
  super_admin admin owner driver : Role
  other_role : ℕ → Role

-- enum ConflictStatus
pub data ConflictStatus : Type 0 where
  open_ticket resolved_overridden resolved_discarded : ConflictStatus

-- TERMINAL_DELIVERY_STATUSES.includes
abbrev pub is_terminal : DeliveryStatus → Bool
is_terminal completed = true
is_terminal cancelled = true
is_terminal DeliveryStatus.failed = true
is_terminal _ = false

-- `new Set(['DELIVERED', 'FAILED', 'SKIPPED']).has`
abbrev pub is_finished : StopStatus → Bool
is_finished delivered = true
is_finished StopStatus.failed = true
is_finished skipped = true
is_finished _ = false

abbrev stop_rank : StopStatus → ℕ
stop_rank pending = 0
stop_rank StopStatus.en_route = 1
stop_rank arrived = 2
stop_rank unloading = 3
stop_rank delivered = 4
stop_rank StopStatus.failed = 5
stop_rank skipped = 6

-- `===` on stop states, and `{ in: [...] }`
abbrev pub is_stop_status : StopStatus → StopStatus → Bool
is_stop_status s t = stop_rank s == stop_rank t

abbrev pub one_of : List StopStatus → StopStatus → Bool
one_of [] t = false
one_of (s ∷ ss) t = is_stop_status s t || one_of ss t

abbrev delivery_rank : DeliveryStatus → ℕ
delivery_rank draft = 0
delivery_rank assigned = 1
delivery_rank accepted = 2
delivery_rank DeliveryStatus.en_route = 3
delivery_rank completed = 4
delivery_rank cancelled = 5
delivery_rank DeliveryStatus.failed = 6

abbrev pub is_delivery_status : DeliveryStatus → DeliveryStatus → Bool
is_delivery_status s t = delivery_rank s == delivery_rank t

abbrev pub is_driver : Role → Bool
is_driver driver = true
is_driver _ = false

abbrev pub is_owner : Role → Bool
is_owner owner = true
is_owner _ = false

-- interface DeliveryActor
pub record DeliveryActor : Type 0 where
  pub user_id : ℕ
  pub role : Role
  pub driver_id : Option ℕ
  pub organization_id : Option ℕ

-- enum RouteMode
pub data RouteMode : Type 0 where
  manual_mode recommended_mode : RouteMode

pub record Delivery : Type 0 where
  pub id : ℕ
  pub delivery_code : ℕ
  pub driver_id : Option ℕ
  pub vehicle_id : Option ℕ
  pub organization_id : Option ℕ
  pub status : DeliveryStatus
  pub route_mode : RouteMode
  pub planned_start_at : Option ℕ
  pub started_at : Option ℕ
  pub completed_at : Option ℕ
  pub created_by : ℕ

pub record DeliveryItem : Type 0 where
  pub delivery_id : ℕ
  pub item_code : ℕ
  pub item_name : ℕ
  pub quantity : ℕ
  pub unit : ℕ
  pub weight_kg : Option ℕ
  pub volume_m3 : Option ℕ

pub record DeliveryStop : Type 0 where
  pub id : ℕ
  pub delivery_id : ℕ
  pub sequence : ℕ
  pub destination_name : ℕ
  pub address : ℕ
  pub latitude : Angle
  pub longitude : Angle
  pub geofence_radius_m : ℕ
  pub status : StopStatus
  pub arrived_at : Option ℕ
  pub completed_at : Option ℕ

-- `'Offline Receiver'` is a name of its own.
pub data ReceiverName : Type 0 where
  named : ℕ → ReceiverName
  offline_receiver : ReceiverName

-- The notes of a client, and `Resolved via Conflict Override by ${actorUserId}`.
pub data Notes : Type 0 where
  client_notes override_notes : ℕ → Notes

pub record ProofOfDelivery : Type 0 where
  pub id : ℕ
  pub delivery_stop_id : ℕ
  pub receiver_name : ReceiverName
  pub signature_file_id : Option ℕ
  pub photo_file_id : Option ℕ
  pub notes : Option Notes
  pub completed_at : ℕ
  pub created_by : ℕ

pub data EventType : Type 0 where
  stop_failed stop_skipped : Option ℕ → EventType
  pod_submitted : ℕ → ReceiverName → EventType

-- Its metadata are the arguments of the event's type.
pub record DeliveryEvent : Type 0 where
  pub delivery_id : ℕ
  pub stop_id : ℕ
  pub event_type : EventType
  pub actor_user_id : ℕ

pub data AuditAction : Type 0 where
  delivery_created delivery_accepted delivery_started delivery_completed : AuditAction
  delivery_failed : AuditAction
  delivery_assigned : ℕ → ℕ → AuditAction
  delivery_cancelled : ℕ → AuditAction
  conflict_resolved : ConflictStatus → Option ℕ → AuditAction

pub record AuditLog : Type 0 where
  pub actor_user_id : ℕ
  pub action : AuditAction
  pub entity_id : ℕ

-- What `submitPod` answers, and what it stores as the response of an idempotent request.
pub record PodResult : Type 0 where
  pub pod_id : Option ℕ
  pub delivery_stop_id : ℕ
  pub completed_at : Option ℕ

-- class SubmitPodDto
pub record SubmitPodDto : Type 0 where
  pub receiver_name : ReceiverName
  pub photo_file_id : Option ℕ
  pub signature_file_id : Option ℕ
  pub notes : Option ℕ
  pub idempotency_key : Option ℕ

-- `{ pending: true }`, or the result
pub data ResponseBody : Type 0 where
  pending_response : ResponseBody
  done_response : PodResult → ResponseBody

pub record IdempotencyRecord : Type 0 where
  pub key : ℕ
  pub user_id : ℕ
  pub endpoint : ℕ
  pub response_status : ℕ
  pub response_body : ResponseBody
  pub expires_at : ℕ

-- class CreateDeliveryItemDto
pub record CreateDeliveryItemDto : Type 0 where
  pub item_code : ℕ
  pub item_name : ℕ
  pub quantity : ℕ
  pub unit : ℕ
  pub weight_kg : Option ℕ
  pub volume_m3 : Option ℕ

-- class CreateDeliveryStopDto
pub record CreateDeliveryStopDto : Type 0 where
  pub sequence : ℕ
  pub destination_name : ℕ
  pub address : ℕ
  pub latitude : Angle
  pub longitude : Angle
  pub geofence_radius_m : Option ℕ

-- class CreateDeliveryDto
pub record CreateDeliveryDto : Type 0 where
  pub delivery_code : ℕ
  pub planned_start_at : Option ℕ
  pub items : List CreateDeliveryItemDto
  pub stops : List CreateDeliveryStopDto

-- `item.eventType`
pub data OutboxEventType : Type 0 where
  depart arrive unload pod unknown_event : OutboxEventType

-- The keys of an outbox payload that the service reads.
pub record OutboxPayload : Type 0 where
  pub delivery_stop_id : Option ℕ
  pub stop_id : Option ℕ
  pub receiver_name : Option ℕ
  pub photo_file_id : Option ℕ
  pub signature_file_id : Option ℕ
  pub notes : Option ℕ

-- class OutboxEventItemDto
pub record OutboxEventItem : Type 0 where
  pub client_event_id : ℕ
  pub event_type : OutboxEventType
  pub occurred_at : ℕ
  pub payload : OutboxPayload
  pub idempotency_key : Option ℕ

-- `conflictType` and `serverState` have one value each in the code: STALE_OFFLINE_COMPLETION, CANCELLED.
pub record DeliveryConflict : Type 0 where
  pub id : ℕ
  pub delivery_id : ℕ
  pub client_event_id : ℕ
  pub client_payload : OutboxEventItem
  pub status : ConflictStatus
  pub resolved_by : Option ℕ
  pub resolution_notes : Option ℕ
  pub resolved_at : Option ℕ
