-- ===== src/Deliveries/Evolution/Pod.antt =====
-- The proof of delivery, the outbox, and the evolution of the database.
use be_distribution_system_a.Prelude.{
  ℕ, suc, Option, none, some, ◌≡◌, refl, inl, inr, List, [], ◌∷◌, ◌++◌, arith, Bool-cases,
}
use be_distribution_system_a.Deliveries.Model.{
  OutboxEventType, arrive, depart, unload, pod, OutboxEventItem, PodResult, IdempotencyRecord,
  ProofOfDelivery, DeliveryConflict, is_stop_status, delivered,
}
use be_distribution_system_a.Deliveries.World.{
  World, Action, Result, ErrorCode, ok, err, transaction, modify,
}
use be_distribution_system_a.Deliveries.Stops.{LoadedStop}
use be_distribution_system_a.Deliveries.Pod.{
  PodRequest, claim_key, save_response, submit_rows, recover, replay_or_throw, announce_pod,
  catching, write_pod, submit_loaded, submit_pod,
}
use be_distribution_system_a.Deliveries.Conflicts.{
  SyncContext, SyncReport, process_event, sync_loaded, sync_event, tally, sync_from, sync_outbox,
}
use be_distribution_system_a.Deliveries.Evolution.{Evolves, Evolves-same, Evolves-trans}
use be_distribution_system_a.Deliveries.Evolution.Rules.{
  Keeps, transaction-Keeps, Evolves-refl, keeping,
}
use be_distribution_system_a.Deliveries.Evolution.Completion.{complete_if_eligible-Keeps}
use be_distribution_system_a.Deliveries.Evolution.Stops.{
  verify-Keeps, ensure-Keeps, deliver_claim, depart-Keeps, arrive-Keeps, unload-Keeps,
}

-- A write to another table than those of deliveries and stops.
pub other_table-Keeps :
    (f : World → World)
    → ((w : World) → (f w).deliveries ≡ w.deliveries)
    → ((w : World) → (f w).stops ≡ w.stops)
    → Keeps (modify f)
other_table-Keeps f p q = record { at = λ w. Evolves-same w (f w) (p w) (q w) }

claim_key-Keeps : (q : PodRequest) (o : Option ℕ) → Keeps (claim_key q o)
unfolding claim_key
claim_key-Keeps q none = search keeping
claim_key-Keeps q (some key) = record { at = λ w. Evolves-same w _ (ground arith) (ground arith) }

save_response-Keeps : (q : PodRequest) (r : PodResult) (o : Option ℕ) → Keeps (save_response q r o)
unfolding save_response
save_response-Keeps q r none = search keeping
save_response-Keeps q r (some key) = other_table-Keeps _ (λ w. refl) (λ w. refl)

add_pods-Keeps : (ps : List ProofOfDelivery) → Keeps (modify λ w. record w { pods = w.pods ++ ps })
add_pods-Keeps ps = other_table-Keeps _ (λ w. refl) (λ w. refl)

submit_rows-Keeps : (q : PodRequest) (d : ℕ) → Keeps (submit_rows q d)
unfolding submit_rows
submit_rows-Keeps q d =
    search (keeping, claim_key-Keeps, save_response-Keeps, deliver_claim, add_pods-Keeps) depth 20

replay-Keeps : (e : ErrorCode) (o : Option IdempotencyRecord) → Keeps (replay_or_throw e o)
replay-Keeps e none = search keeping
replay-Keeps e (some r) = search keeping

recover-Keeps : (q : PodRequest) (e : ErrorCode) → Keeps (recover q e)
unfolding recover
recover-Keeps q e = record { at = λ w. Evolves-same w _ (ground arith) (ground arith) }

catching-Keeps {ℓ κ} :
    {A : Type ℓ} {B : Type κ} (m : Action A) (f : A → Action B) (h : ErrorCode → Action B)
    → Keeps m
    → ((a : A) → Keeps (f a))
    → ((e : ErrorCode) → Keeps (h e))
    → Keeps (catching m f h)
catching-Keeps {A} {B} m f h e g r = record { at = λ w. result w (m w).1 (m w).0 (e.at w) }
  where
    result :
        (w v : World) (o : Result A)
        → Evolves w v
        → Evolves w (elim o as (λ _. Result B × World) [ ok a ↦ f a v | err e ↦ h e v ]).1
    result w v (ok a) p = Evolves-trans w v _ p ((g a).at v)
    result w v (err c) p = Evolves-trans w v _ p ((r c).at v)

announce-Keeps : (q : PodRequest) (d : ℕ) (r : PodResult) → Keeps (announce_pod q d r)
unfolding announce_pod
announce-Keeps q d r = search (keeping, complete_if_eligible-Keeps) depth 8

write_pod-Keeps : (q : PodRequest) (d : ℕ) → Keeps (write_pod q d)
unfolding write_pod
write_pod-Keeps q d =
    catching-Keeps (transaction (submit_rows q d)) (announce_pod q d) (recover q)
      (transaction-Keeps (submit_rows-Keeps q d)) (announce-Keeps q d) (recover-Keeps q)

submit_loaded-Keeps :
    (q : PodRequest) (s : LoadedStop) (o : Option IdempotencyRecord) → Keeps (submit_loaded q s o)
unfolding submit_loaded
submit_loaded-Keeps q s (some r) = search keeping
submit_loaded-Keeps q s none = elim (Bool-cases (is_stop_status delivered s.stop.status)) [
  | inl e ↦ rw (e, submit_loaded) (search keeping)
  | inr e ↦ rw (e, submit_loaded) (search (keeping, ensure-Keeps, write_pod-Keeps) depth 9)
]

pub submit-Keeps : (q : PodRequest) → Keeps (submit_pod q)
unfolding submit_pod
submit-Keeps q = search (keeping, verify-Keeps, submit_loaded-Keeps) depth 9

ruleset events = (keeping, depart-Keeps, arrive-Keeps, unload-Keeps, submit-Keeps)

process-Keeps :
    (c : SyncContext) (i : ℕ) (item : OutboxEventItem) (t : OutboxEventType) (o : Option ℕ)
    → Keeps (process_event c i item t o)
unfolding process_event
process-Keeps c i item depart (some k) = search events
process-Keeps c i item arrive (some k) = search events
process-Keeps c i item unload (some k) = search events
process-Keeps c i item pod (some k) = search events
process-Keeps c i item _ _ = search keeping

add_conflicts-Keeps :
    (cs : List DeliveryConflict) → Keeps (modify λ w. record w { conflicts = w.conflicts ++ cs })
add_conflicts-Keeps cs = other_table-Keeps _ (λ w. refl) (λ w. refl)

sync_loaded-Keeps :
    (c : SyncContext) (i : ℕ) (item : OutboxEventItem) (o : Option LoadedStop)
    → Keeps (sync_loaded c i item o)
unfolding sync_loaded
sync_loaded-Keeps c i item none = search (keeping, process-Keeps)
sync_loaded-Keeps c i item (some s) = search (keeping, add_conflicts-Keeps)

sync_event-Keeps : (c : SyncContext) (i : ℕ) (item : OutboxEventItem) → Keeps (sync_event c i item)
unfolding sync_event
sync_event-Keeps c i item = search (keeping, sync_loaded-Keeps)

sync_from-Evolves :
    (c : SyncContext) (i : ℕ) (items : List OutboxEventItem) (r : SyncReport) (w : World)
    → Evolves w (sync_from c i items r w).1
unfolding sync_from
sync_from-Evolves c i [] r w = Evolves-refl w
sync_from-Evolves c i (item ∷ items) r w =
    let (outcome, v) = sync_event c i item w in
    Evolves-trans w v _ ((sync_event-Keeps c i item).at w)
      (sync_from-Evolves c (suc i) items (tally item outcome r) v)

-- However the events of an outbox are ordered, and whatever fails among them.
pub sync-Evolves :
    (c : SyncContext) (items : List OutboxEventItem) (w : World)
    → Evolves w (sync_outbox c items w).1
unfolding sync_outbox
sync-Evolves c items w = sync_from-Evolves c 0 items _ w
