-- ===== src/Deliveries/Evolution/Stops.antt =====
-- The handlers of the stops and the evolution of the database.
use be_distribution_system_a.Prelude.{ℕ, true, Option, ◌≡◌, refl, List, [], ◌∷◌, arith}
use be_distribution_system_a.Deliveries.Model.{
  DeliveryStatus, StopStatus, pending, arrived, unloading, skipped, delivered, one_of,
  DeliveryActor, DeliveryStop,
}
use be_distribution_system_a.Deliveries.Stops.{
  LoadedStop, get_stop_and_verify_driver, may_move, claim_stop, update_stop_if_operational,
  set_status, set_arrived, set_finished, depart_to_stop, arrive_at_stop, start_unloading, fail_stop,
  skip_stop, ensure_delivery_operational, throw_if_not_en_route, failable,
}
use be_distribution_system_a.Deliveries.Evolution.{
  ◌⇝◌, depart, arrive, arrive_early, unload, deliver, deliver_early, fail_en_route, fail_arrived,
  fail_unloading, skip, Evolves-same,
}
use be_distribution_system_a.Deliveries.Evolution.Completion.{complete_if_eligible-Keeps}
use be_distribution_system_a.Deliveries.Evolution.Rules.{Keeps, update_stop-Evolves, keeping}

-- An update from the expected states, along an edge from each of them.
pub claim_stop-Keeps :
    (k : ℕ) (expected : List StopStatus) (f : DeliveryStop → DeliveryStop)
    → ((s : DeliveryStop) → (f s).id ≡ s.id)
    → ((s : DeliveryStop) → (f s).delivery_id ≡ s.delivery_id)
    → ((s : DeliveryStop) → one_of expected s.status ≡ true → s.status ⇝ (f s).status)
    → Keeps (claim_stop k expected f)
unfolding claim_stop
claim_stop-Keeps k expected f ids owners edges = record {
  at = λ w. update_stop-Evolves w k (may_move w expected) f ids (λ s found passed. record {
    same_delivery = owners s;
    edge = edges s (ground arith);
    still_open = λ d g. ground arith;
  });
}

update_after_claim-Keeps :
    (k : ℕ) (expected : List StopStatus) (f : DeliveryStop → DeliveryStop)
    → Keeps (claim_stop k expected f)
    → Keeps (update_stop_if_operational k expected f)
unfolding update_stop_if_operational
update_after_claim-Keeps k expected f claim = search keeping depth 12

module _ (k : ℕ) (expected : List StopStatus) (f : DeliveryStop → DeliveryStop)
    (ids : (s : DeliveryStop) → (f s).id ≡ s.id)
    (owners : (s : DeliveryStop) → (f s).delivery_id ≡ s.delivery_id)
    (edges : (s : DeliveryStop) → one_of expected s.status ≡ true → s.status ⇝ (f s).status) where
  update_stop-Keeps : Keeps (update_stop_if_operational k expected f)
  update_stop-Keeps =
      update_after_claim-Keeps k expected f (claim_stop-Keeps k expected f ids owners edges)

pub verify-Keeps : (k : ℕ) (d : Option ℕ) → Keeps (get_stop_and_verify_driver k d)
unfolding get_stop_and_verify_driver
verify-Keeps k d = search keeping depth 9

pub ensure-Keeps : (s : DeliveryStatus) → Keeps (ensure_delivery_operational s)
unfolding ensure_delivery_operational
ensure-Keeps s = search keeping

not_en_route-Keeps : (s : LoadedStop) → Keeps (throw_if_not_en_route s)
not_en_route-Keeps s = record { at = λ w. Evolves-same w _ (ground arith) (ground arith) }

-- The edges of the updates, from the states that they expect.
depart_edge : (s : StopStatus) → one_of (pending ∷ []) s ≡ true → s ⇝ StopStatus.en_route
depart_edge pending h = depart
depart_edge _ h = cc

skip_edge : (s : StopStatus) → one_of (pending ∷ []) s ≡ true → s ⇝ skipped
skip_edge pending h = skip
skip_edge _ h = cc

arrive_edge : (s : StopStatus) → one_of (StopStatus.en_route ∷ pending ∷ []) s ≡ true → s ⇝ arrived
arrive_edge pending h = arrive_early
arrive_edge StopStatus.en_route h = arrive
arrive_edge _ h = cc

unload_edge : (s : StopStatus) → one_of (arrived ∷ []) s ≡ true → s ⇝ unloading
unload_edge arrived h = unload
unload_edge _ h = cc

fail_edge : (s : StopStatus) → one_of failable s ≡ true → s ⇝ StopStatus.failed
fail_edge arrived h = fail_arrived
fail_edge unloading h = fail_unloading
fail_edge StopStatus.en_route h = fail_en_route
fail_edge _ h = cc

pub deliver_edge : (s : StopStatus) → one_of (unloading ∷ arrived ∷ []) s ≡ true → s ⇝ delivered
deliver_edge arrived h = deliver_early
deliver_edge unloading h = deliver
deliver_edge _ h = cc

ruleset steps =
    (keeping, verify-Keeps, ensure-Keeps, not_en_route-Keeps, complete_if_eligible-Keeps)

depart_update :
    (k : ℕ) → Keeps (update_stop_if_operational k (pending ∷ []) (set_status StopStatus.en_route))
depart_update k = update_stop-Keeps k _ _ (λ s. refl) (λ s. refl) (λ s h. depart_edge s.status h)

arrive_update :
    (k now : ℕ)
    → Keeps (update_stop_if_operational k (StopStatus.en_route ∷ pending ∷ []) (set_arrived now))
arrive_update k now =
    update_stop-Keeps k _ _ (λ s. refl) (λ s. refl) (λ s h. arrive_edge s.status h)

unload_update : (k : ℕ) → Keeps (update_stop_if_operational k (arrived ∷ []) (set_status unloading))
unload_update k = update_stop-Keeps k _ _ (λ s. refl) (λ s. refl) (λ s h. unload_edge s.status h)

fail_update :
    (k now : ℕ) → Keeps (update_stop_if_operational k failable (set_finished StopStatus.failed now))
fail_update k now = update_stop-Keeps k _ _ (λ s. refl) (λ s. refl) (λ s h. fail_edge s.status h)

skip_update : (k : ℕ) → Keeps (update_stop_if_operational k (pending ∷ []) (set_status skipped))
skip_update k = update_stop-Keeps k _ _ (λ s. refl) (λ s. refl) (λ s h. skip_edge s.status h)

pub deliver_claim :
    (k now : ℕ) → Keeps (claim_stop k (unloading ∷ arrived ∷ []) (set_finished delivered now))
deliver_claim k now =
    claim_stop-Keeps k _ _ (λ s. refl) (λ s. refl) (λ s h. deliver_edge s.status h)

ruleset updates = (depart_update, arrive_update, unload_update, fail_update, skip_update)

pub depart-Keeps : (k d u : ℕ) → Keeps (depart_to_stop k d u)
unfolding depart_to_stop
depart-Keeps k d u = search (steps, updates) depth 16

pub arrive-Keeps : (k d u now : ℕ) → Keeps (arrive_at_stop k d u now)
unfolding arrive_at_stop
arrive-Keeps k d u now = search (steps, updates) depth 16

pub unload-Keeps : (k d u : ℕ) → Keeps (start_unloading k d u)
unfolding start_unloading
unload-Keeps k d u = search (steps, updates) depth 16

pub fail-Keeps : (k : ℕ) (r : Option ℕ) (d u now : ℕ) → Keeps (fail_stop k r d u now)
unfolding fail_stop
fail-Keeps k r d u now = search (steps, updates) depth 20

pub skip-Keeps : (k : ℕ) (r : Option ℕ) (a : DeliveryActor) (now : ℕ) → Keeps (skip_stop k r a now)
unfolding skip_stop
skip-Keeps k r a now = search (steps, updates) depth 20
