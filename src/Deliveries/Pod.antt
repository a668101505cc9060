-- ===== src/Deliveries/Pod.antt =====
-- src/modules/pod/services/pod.service.ts: submitPod.

pub mod Idempotency
use be_distribution_system_a.Prelude.{
  ℕ, ◌+◌, ◌*◌, Bool, true, false, not, ◌&&◌, ◌||◌, Option, none, some, List, [], ◌∷◌, ◌++◌, ◌==◌,
  if◌then◌else◌,
}
use mathlib.Core.Option
use be_distribution_system_a.Prelude.Table.{find_by}
use be_distribution_system_a.Deliveries.Model.{
  StopStatus, arrived, unloading, delivered, is_stop_status, one_of, DeliveryActor, DeliveryStop,
  ProofOfDelivery, client_notes, pod_submitted, PodResult, ResponseBody, pending_response,
  done_response, IdempotencyRecord, SubmitPodDto,
}
use be_distribution_system_a.Deliveries.World.{
  World, delivery_room, pod_created, ErrorCode, invalid_delivery_state, invalid_state_transition,
  unique_constraint, Action, Result, ok, err, pure, throw, gets, transaction, ◌>>=◌, ◌>>◌, throw_if,
  modify, log_event, emit,
}
use be_distribution_system_a.Deliveries.Completion.{complete_delivery_if_eligible}
use be_distribution_system_a.Deliveries.Stops.{
  LoadedStop, get_stop_and_verify_driver, ensure_delivery_operational, claim_stop, set_finished,
  verified_driver,
}

-- `key_userId_endpoint: { key, userId, endpoint }`
abbrev is_record_of : ℕ → ℕ → ℕ → IdempotencyRecord → Bool
is_record_of key user endpoint r = r.key == key && r.user_id == user && r.endpoint == endpoint

-- `idempotencyRecord.findUnique`
unfoldable pub find_record : ℕ → ℕ → ℕ → List IdempotencyRecord → Option IdempotencyRecord
find_record key user endpoint [] = none
find_record key user endpoint (r ∷ rs) =
    if is_record_of key user endpoint r then some r else find_record key user endpoint rs

-- `idempotencyRecord.update` of the response
unfoldable pub store_response :
    ℕ → ℕ → ℕ → PodResult → List IdempotencyRecord → List IdempotencyRecord
store_response key user endpoint result [] = []
store_response key user endpoint result (r ∷ rs) =
    (if is_record_of key user endpoint r
      then record r { response_status = 201; response_body = done_response result }
      else r)
    ∷ store_response key user endpoint result rs

abbrev pub pod_key : ProofOfDelivery → ℕ
pod_key p = p.delivery_stop_id

abbrev pub find_pod : ℕ → World → Option ProofOfDelivery
find_pod stop_id w = find_by pod_key stop_id w.pods

-- What `submitPod` returns: a stored response (`idempotent: true`), the answer for a stop that is
-- delivered already (`alreadySubmitted: true`), or the new result.
pub data PodAnswer : Type 0 where
  replayed : ResponseBody → PodAnswer
  already_submitted submitted : PodResult → PodAnswer

-- What a request knows besides its DTO: the stop, the actor, the endpoint, the new POD's id, the time.
pub record PodRequest : Type 0 where
  pub stop_id : ℕ
  pub dto : SubmitPodDto
  pub open dto use {idempotency_key}
  pub actor : DeliveryActor
  pub endpoint : ℕ
  pub pod_id : ℕ
  pub now : ℕ

abbrev pub stored : PodRequest → World → Option IdempotencyRecord
stored q w = elim q.idempotency_key [
  | none ↦ none
  | some key ↦ find_record key q.actor.user_id q.endpoint w.idempotency_records
]

abbrev is_present {ℓ} : {A : Type ℓ} → Option A → Bool
is_present none = false
is_present (some a) = true

abbrev pub pending_record : PodRequest → ℕ → IdempotencyRecord
pending_record q key = record {
  key = key;
  user_id = q.actor.user_id;
  endpoint = q.endpoint;
  response_status = 0;
  response_body = pending_response;
  expires_at = q.now + 24 * 3600 * 1000;
}

-- `if (dto.idempotencyKey) await tx.idempotencyRecord.create(…)`
unfoldable pub claim_key : PodRequest → Option ℕ → Action (Unit {0})
claim_key q none = pure tt
claim_key q (some key) = do
  throw_if (is_present (← gets (stored q))) unique_constraint
  modify λ w. record w { idempotency_records = w.idempotency_records ++ pending_record q key ∷ [] }

unfoldable pub save_response : PodRequest → PodResult → Option ℕ → Action (Unit {0})
save_response q result none = pure tt
save_response q result (some key) = modify λ w. record w {
  idempotency_records = store_response key q.actor.user_id q.endpoint result w.idempotency_records;
}

new_pod : PodRequest → ProofOfDelivery
new_pod q = record {
  id = q.pod_id;
  delivery_stop_id = q.stop_id;
  receiver_name = q.dto.receiver_name;
  signature_file_id = q.dto.signature_file_id;
  photo_file_id = q.dto.photo_file_id;
  notes = Option.map client_notes q.dto.notes;
  completed_at = q.now;
  created_by = q.actor.user_id;
}

abbrev pub new_result : PodRequest → PodResult
new_result q = record {
  pod_id = some q.pod_id;
  delivery_stop_id = q.stop_id;
  completed_at = some q.now;
}

-- The body of the transaction of `submitPod`.
unfoldable pub submit_rows : PodRequest → ℕ → Action PodResult
unfolding new_pod
submit_rows q delivery_id = do
  claim_key q q.idempotency_key
  throw_if (not (← claim_stop q.stop_id (unloading ∷ arrived ∷ []) (set_finished delivered q.now)))
      invalid_delivery_state
  throw_if (is_present (← gets (find_pod q.stop_id))) unique_constraint
  modify λ w. record w { pods = w.pods ++ new_pod q ∷ [] }
  log_event delivery_id q.stop_id (pod_submitted q.pod_id q.dto.receiver_name) q.actor.user_id
  save_response q (new_result q) q.idempotency_key
  pure (new_result q)

-- The stored response, if there is one; else the exception is thrown again.
abbrev pub replay_or_throw : ErrorCode → Option IdempotencyRecord → Action PodAnswer
replay_or_throw e none = throw e
replay_or_throw e (some r) = pure (replayed r.response_body)

-- The `catch` of `submitPod`.
unfoldable pub recover : PodRequest → ErrorCode → Action PodAnswer
recover q unique_constraint = gets (stored q) >>= replay_or_throw unique_constraint
recover q e = throw e

unfoldable pub announce_pod : PodRequest → ℕ → PodResult → Action PodAnswer
announce_pod q delivery_id result = do
  emit (delivery_room delivery_id) (pod_created delivery_id q.stop_id result.pod_id) q.actor
  complete_delivery_if_eligible delivery_id q.actor q.now
  pure (submitted result)

-- `try { … } catch`, with what follows the `try` block.
abbrev pub catching {ℓ κ} :
    {A : Type ℓ} {B : Type κ} → Action A → (A → Action B) → (ErrorCode → Action B) → Action B
catching m f h w = let (r, w') = m w in elim r [ ok a ↦ f a w' | err e ↦ h e w' ]

-- The writes of `submitPod`.
unfoldable pub write_pod : PodRequest → ℕ → Action PodAnswer
write_pod q delivery_id =
    catching (transaction (submit_rows q delivery_id)) (announce_pod q delivery_id) (recover q)

abbrev pub existing_answer : ℕ → Option ℕ → Option ProofOfDelivery → PodResult
existing_answer stop_id completed_at none = record {
  pod_id = none;
  delivery_stop_id = stop_id;
  completed_at = completed_at;
}
existing_answer stop_id completed_at (some p) = record {
  pod_id = some p.id;
  delivery_stop_id = stop_id;
  completed_at = some p.completed_at;
}

-- `submitPod` from the test for a stored response on.
unfoldable pub submit_loaded : PodRequest → LoadedStop → Option IdempotencyRecord → Action PodAnswer
submit_loaded q s (some r) = pure (replayed r.response_body)
submit_loaded q s none =
    if is_stop_status delivered s.stop.status
    then (gets (find_pod q.stop_id) >>= λ p.
        pure (already_submitted (existing_answer q.stop_id s.stop.completed_at p)))
    else (ensure_delivery_operational s.delivery.status
        >> (throw_if (not (one_of (unloading ∷ arrived ∷ []) s.stop.status))
              invalid_state_transition
            >> write_pod q s.stop.delivery_id))

unfoldable pub submit_pod : PodRequest → Action PodAnswer
submit_pod q = do
  s ← get_stop_and_verify_driver q.stop_id (verified_driver q.actor)
  r ← gets (stored q)
  submit_loaded q s r
