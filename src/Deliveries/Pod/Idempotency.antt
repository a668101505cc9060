-- ===== src/Deliveries/Pod/Idempotency.antt =====
-- A repeated submission of a proof of delivery.
use be_distribution_system_a.Prelude.{
  ℕ, Option, none, some, ◌≡◌, refl, List, [], ◌∷◌, ◌++◌, arith, Option-cases, inl, inr,
}
use be_distribution_system_a.Deliveries.Model.{
  PodResult, done_response, IdempotencyRecord, DeliveryActor,
}
use be_distribution_system_a.Deliveries.World.{World, ok}
use be_distribution_system_a.Deliveries.Service.{claim_delivery}
use be_distribution_system_a.Deliveries.Completion.{
  complete_delivery_if_eligible, auto_complete_rows,
}
use be_distribution_system_a.Deliveries.Stops.{
  LoadedStop, load_stop, get_stop_and_verify_driver, verified_driver, claim_stop,
  ensure_delivery_operational,
}
use be_distribution_system_a.Deliveries.Pod.{
  PodRequest, replayed, submitted, find_record, store_response, stored, pending_record, claim_key,
  save_response, submit_rows, recover, announce_pod, write_pod, submit_loaded, submit_pod,
  new_result,
}

find_record-store_response :
    (key user endpoint : ℕ) (result : PodResult) (rs : List IdempotencyRecord)
    (r : IdempotencyRecord)
    → find_record key user endpoint rs ≡ none
    → r.key ≡ key
    → r.user_id ≡ user
    → r.endpoint ≡ endpoint
    → find_record key user endpoint (store_response key user endpoint result (rs ++ r ∷ []))
      ≡ some (record r { response_status = 201; response_body = done_response result })
unfolding find_record store_response
find_record-store_response key user endpoint result [] r h a b c = ground arith
find_record-store_response key user endpoint result (x ∷ rs) r h a b c =
    ground (arith, find_record-store_response key user endpoint result rs r)

auto_complete_records :
    (k : ℕ) (a : DeliveryActor) (now : ℕ) (w : World)
    → (complete_delivery_if_eligible k a now w).1.idempotency_records ≡ w.idempotency_records
unfolding complete_delivery_if_eligible auto_complete_rows claim_delivery
auto_complete_records k a now w = ground arith

claim_key_records :
    (q : PodRequest) (o : Option ℕ) (key : ℕ) (w : World)
    → o ≡ some key
    → (claim_key q o w).0 ≡ ok tt
    → (claim_key q o w).1.idempotency_records ≡ w.idempotency_records ++ pending_record q key ∷ []
unfolding claim_key
claim_key_records q none key w e h = cc
claim_key_records q (some j) key w e h = ground arith

save_response_records :
    (q : PodRequest) (r : PodResult) (o : Option ℕ) (key : ℕ) (w : World)
    → o ≡ some key
    → (save_response q r o w).1.idempotency_records
      ≡ store_response key q.actor.user_id q.endpoint r w.idempotency_records
unfolding save_response
save_response_records q r none key w e = cc
save_response_records q r (some j) key w e = ground arith

submit_rows_records :
    (q : PodRequest) (d key : ℕ) (w w' : World) (r : PodResult)
    → q.idempotency_key ≡ some key
    → submit_rows q d w ≡ (ok r, w')
    → (w'.idempotency_records
        ≡ store_response key q.actor.user_id q.endpoint
            (new_result q)
            (w.idempotency_records ++ pending_record q key ∷ []))
      × (r ≡ new_result q)
unfolding submit_rows claim_stop
submit_rows_records q d key w w' r e h = grind (
  arith,
  claim_key_records q q.idempotency_key key w e,
  save_response_records q (new_result q) q.idempotency_key key,
)

write_pod_records :
    (q : PodRequest) (d key : ℕ) (w w' : World) (r : PodResult)
    → q.idempotency_key ≡ some key
    → write_pod q d w ≡ (ok (submitted r), w')
    → (w'.idempotency_records
        ≡ store_response key q.actor.user_id q.endpoint
            (new_result q)
            (w.idempotency_records ++ pending_record q key ∷ []))
      × (r ≡ new_result q)
unfolding write_pod announce_pod recover
write_pod_records q d key w w' r e h =
    grind (arith, submit_rows_records q d key w (submit_rows q d w).1 r e, auto_complete_records)

-- The first answer of a request with a key that was not stored, and what it stored.
first_answer :
    (q : PodRequest) (key : ℕ) (w w' : World) (r : PodResult)
    → q.idempotency_key ≡ some key
    → submit_pod q w ≡ (ok (submitted r), w')
    → (find_record key q.actor.user_id q.endpoint w.idempotency_records ≡ none)
      × (w'.idempotency_records
          ≡ store_response key q.actor.user_id q.endpoint
              (new_result q)
              (w.idempotency_records ++ pending_record q key ∷ []))
      × (r ≡ new_result q)
unfolding submit_pod submit_loaded get_stop_and_verify_driver ensure_delivery_operational
first_answer q key w w' r e h = elim (Option-cases (load_stop q.stop_id w)) [
  | inl none_there ↦ ground arith
  | inr (s, there) ↦ ground (arith, write_pod_records q s.stop.delivery_id key w w' r e)
]

stored_after :
    (q q' : PodRequest) (key : ℕ) (w w' : World) (r : PodResult)
    → q.idempotency_key ≡ some key
    → q'.idempotency_key ≡ some key
    → q'.actor.user_id ≡ q.actor.user_id
    → q'.endpoint ≡ q.endpoint
    → submit_pod q w ≡ (ok (submitted r), w')
    → stored q' w'
      ≡ some
          (record (pending_record q key) { response_status = 201; response_body = done_response r })
stored_after q q' key w w' r e e' user endpoint h =
    let (fresh, written, answer) = first_answer q key w w' r e h in
    rw (e', user, endpoint, written, answer)
      (find_record-store_response key q.actor.user_id q.endpoint (new_result q)
        w.idempotency_records (pending_record q key) fresh refl refl refl)

-- A submission with an idempotency key that has been carried out is answered, when the same user
-- repeats the key at the same endpoint, with the stored result of the first, and nothing is
-- written; the repeated request may name another stop that the actor can load.
pub submit_pod_twice :
    (q q' : PodRequest) (key : ℕ) (w w' : World) (r : PodResult) (s : LoadedStop)
    → q.idempotency_key ≡ some key
    → q'.idempotency_key ≡ some key
    → q'.actor.user_id ≡ q.actor.user_id
    → q'.endpoint ≡ q.endpoint
    → submit_pod q w ≡ (ok (submitted r), w')
    → get_stop_and_verify_driver q'.stop_id (verified_driver q'.actor) w' ≡ (ok s, w')
    → submit_pod q' w' ≡ (ok (replayed (done_response r)), w')
unfolding submit_pod submit_loaded
submit_pod_twice q q' key w w' r s e e' user endpoint h loaded =
    ground (arith, stored_after q q' key w w' r e e' user endpoint h)
