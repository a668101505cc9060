-- ===== src/Deliveries/Scenarios.antt =====
-- Runs of the deliveries module on a small database: delivery 1 is on its way with two stops,
-- delivery 2 is assigned, delivery 3 is cancelled and has one stop and a ticket for it.
use be_distribution_system_a.Prelude.{
  ℕ, north_or_east, south_or_west, true, false, none, some, ◌≡◌, ◌≢◌, ◌↔◌, refl, List, [], ◌∷◌, All,
  arith,
}
use be_distribution_system_a.Prelude.Table.{IsUnique, find_by, find_many, count_by, update_by}
use be_distribution_system_a.Deliveries.Model.{
  recommended_mode, DeliveryStatus, assigned, completed, cancelled, StopStatus, pending, unloading,
  delivered, admin, owner, driver, DeliveryActor, Delivery, DeliveryStop, SubmitPodDto, named,
  done_response, OutboxEventItem, pod, DeliveryConflict, open_ticket, resolved_overridden,
  resolved_discarded,
}
use be_distribution_system_a.Deliveries.World.{
  World, ok, err, resource_forbidden, delivery_key, find_delivery, find_stop,
}
use be_distribution_system_a.Deliveries.Service.{
  get_delivery_by_id, is_forbidden, read_as_driver, write_accept, claim_delivery, update_delivery,
}
use be_distribution_system_a.Deliveries.Completion.{
  evaluate_stops, evaluate_delivery_completion, eligible, unfinished_stops, complete_delivery,
  cancel_delivery, set_cancelled, complete_delivery_if_eligible, auto_complete_rows,
}
use be_distribution_system_a.Deliveries.Stops.{
  load_stop, get_stop_and_verify_driver, ensure_delivery_operational, claim_stop,
}
use be_distribution_system_a.Deliveries.Pod.{
  PodRequest, submit_pod, replayed, find_record, store_response, claim_key, save_response,
  submit_rows, recover, announce_pod, write_pod, submit_loaded, new_result,
}
use be_distribution_system_a.Deliveries.Conflicts.{
  SyncContext, sync_outbox, Resolution, resolve_conflict, resolve_rows, override_stop,
  override_evidence, upsert_pod, force_delivered, complete_if_done, resolved_row,
}
use be_distribution_system_a.Deliveries.Conflicts.Evidence.{
  IsStale, Preserved, sync_stale-Preserved,
}
use be_distribution_system_a.Deliveries.Conflicts.Resolving.{Overridden, resolve_conflict_overrides}
use be_distribution_system_a.Deliveries.Controllers.{
  User, Request, cancel_request, accept_request, resolve_request, serve, get_delivery_route,
}
use be_distribution_system_a.Deliveries.Evolution.{◌⟶*◌, ◌⇝*◌}
use be_distribution_system_a.Deliveries.Evolution.Requests.{
  serve_delivery_moves, serve_delivery_frozen, serve_stop_moves, serve_stop_frozen,
}
use be_distribution_system_a.Deliveries.Eligibility.{
  IsFinished, HasDelivered, evaluate_stops_lem, CompletionContract, complete_delivery_lem,
  CancelContract, cancel_delivery_lem,
}
use be_distribution_system_a.Deliveries.Races.{accept_revives_cancelled}
use be_distribution_system_a.Deliveries.Access.{full_actor, owner_scope_lost}
use be_distribution_system_a.Deliveries.Pod.Idempotency.{submit_pod_twice}

abbrev delivery_row : ℕ → DeliveryStatus → Delivery
delivery_row k s = record {
  id = k;
  delivery_code = 100;
  driver_id = some 7;
  vehicle_id = some 8;
  organization_id = some 4;
  status = s;
  route_mode = recommended_mode;
  planned_start_at = none;
  started_at = none;
  completed_at = none;
  created_by = 20;
}

abbrev stop_row : ℕ → ℕ → StopStatus → DeliveryStop
stop_row k delivery_id s = record {
  id = k;
  delivery_id = delivery_id;
  sequence = k;
  destination_name = 0;
  address = 0;
  latitude = south_or_west 62000000;
  longitude = north_or_east 1068166660;
  geofence_radius_m = 100;
  status = s;
  arrived_at = none;
  completed_at = none;
}

abbrev outbox_item : ℕ → OutboxEventItem
outbox_item event = record {
  client_event_id = event;
  event_type = pod;
  occurred_at = 900;
  payload = record {
    delivery_stop_id = some 13;
    stop_id = none;
    receiver_name = some 40;
    photo_file_id = none;
    signature_file_id = none;
    notes = none;
  };
  idempotency_key = none;
}

abbrev ticket : DeliveryConflict
ticket = record {
  id = 60;
  delivery_id = 3;
  client_event_id = 90;
  client_payload = outbox_item 90;
  status = open_ticket;
  resolved_by = none;
  resolution_notes = none;
  resolved_at = none;
}

abbrev database : World
database = record {
  deliveries =
      delivery_row 1 DeliveryStatus.en_route
      ∷ delivery_row 2 assigned
      ∷ delivery_row 3 cancelled
      ∷ [];
  items = [];
  stops = stop_row 11 1 delivered ∷ stop_row 12 1 unloading ∷ stop_row 13 3 pending ∷ [];
  pods = [];
  events = [];
  audit_logs = [];
  idempotency_records = [];
  conflicts = ticket ∷ [];
  drivers = 7 ∷ [];
  vehicles = 8 ∷ [];
  emitted = [];
  gateway_up = true;
}

-- User 30 is driver 7.
abbrev the_driver : User
the_driver = record { id = 30; role = driver; driver_id = some 7; organization_id = none }

abbrev the_admin : User
the_admin = record { id = 50; role = admin; driver_id = none; organization_id = none }

abbrev dispatcher : DeliveryActor
dispatcher = record { user_id = 50; role = admin; driver_id = none; organization_id = none }

-- An owner of organisation 4 who has created no delivery.
abbrev co_owner : User
co_owner = record { id = 21; role = owner; driver_id = none; organization_id = some 4 }

abbrev the_dto : SubmitPodDto
the_dto = record {
  receiver_name = named 40;
  photo_file_id = none;
  signature_file_id = none;
  notes = none;
  idempotency_key = some 77;
}

abbrev proof : PodRequest
proof = record {
  stop_id = 12;
  dto = the_dto;
  actor = record { user_id = 30; role = driver; driver_id = some 7; organization_id = none };
  endpoint = 5;
  pod_id = 70;
  now = 1000;
}

abbrev override : Resolution
override = record {
  status = resolved_overridden;
  notes = none;
  user_id = 50;
  role = admin;
  pod_id = 71;
  now = 2000;
}

IsUnique-ids : IsUnique delivery_key database.deliveries
unfolding find_by
IsUnique-ids = (refl, (refl, (refl, tt)))

abbrev some_requests : List Request
some_requests =
    accept_request the_driver 2
    ∷ cancel_request the_admin 3 9
    ∷ resolve_request the_admin 60 resolved_discarded none 61 2000
    ∷ []

serve_delivery_moves_example :
    (d : Delivery) × (find_delivery 2 (serve some_requests database) ≡ some d)
    × (assigned ⟶* d.status)
unfolding find_by
serve_delivery_moves_example =
    serve_delivery_moves some_requests database 2 refl (delivery_row 2 assigned) refl

serve_delivery_frozen_example :
    find_delivery 3 (serve some_requests database) ≡ some (delivery_row 3 cancelled)
unfolding find_by
serve_delivery_frozen_example =
    serve_delivery_frozen some_requests database 3 refl (delivery_row 3 cancelled) refl refl

serve_stop_moves_example :
    (s : DeliveryStop) × (find_stop 12 (serve some_requests database) ≡ some s)
    × (s.delivery_id ≡ 1)
    × (unloading ⇝* s.status)
unfolding find_by
serve_stop_moves_example =
    serve_stop_moves some_requests database 12 refl (stop_row 12 1 unloading) refl

serve_stop_frozen_example :
    find_stop 13 (serve some_requests database) ≡ some (stop_row 13 3 pending)
unfolding find_by
serve_stop_frozen_example =
    serve_stop_frozen some_requests database 13 refl (stop_row 13 3 pending)
      (delivery_row 3 cancelled) refl refl refl

evaluate_stops_lem_example :
    let ss = stop_row 11 1 delivered ∷ stop_row 12 1 unloading ∷ [] in
    ((evaluate_stops ss ≡ eligible completed) ↔ (All IsFinished ss × HasDelivered ss))
    × ((evaluate_stops ss ≡ eligible DeliveryStatus.failed)
        ↔ ((ss ≢ []) × All IsFinished ss × ¬ HasDelivered ss))
evaluate_stops_lem_example =
    evaluate_stops_lem (stop_row 11 1 delivered ∷ stop_row 12 1 unloading ∷ [])

complete_delivery_lem_example :
    CompletionContract DeliveryStatus.en_route
      (evaluate_delivery_completion 1 database)
      1
      500
      (delivery_row 1 DeliveryStatus.en_route)
      database
      (complete_delivery 1 dispatcher 500 database)
unfolding find_by is_forbidden
complete_delivery_lem_example =
    complete_delivery_lem 1 dispatcher 500 database (delivery_row 1 DeliveryStatus.en_route)
      IsUnique-ids refl refl

cancel_delivery_lem_example :
    CancelContract false 2
      (delivery_row 2 assigned)
      database
      (cancel_delivery 2 9 dispatcher database)
unfolding find_by is_forbidden
cancel_delivery_lem_example =
    cancel_delivery_lem 2 dispatcher 0 database (delivery_row 2 assigned) IsUnique-ids refl refl 9

accept_revives_cancelled_example :
    let v = (cancel_delivery 2 9 dispatcher database).1 in
    ((read_as_driver 2 7 assigned database).0 ≡ ok tt)
    × (find_delivery 2 v ≡ some (set_cancelled (delivery_row 2 assigned)))
    × (find_delivery 2 (write_accept 2 7 30 v).1 ≡ some (delivery_row 2 DeliveryStatus.accepted))
unfolding find_by is_forbidden
accept_revives_cancelled_example =
    accept_revives_cancelled 2 7 30 9 dispatcher database (delivery_row 2 assigned) IsUnique-ids
      refl refl refl refl

owner_scope_lost_example :
    (get_delivery_route 1 co_owner database ≡ (err resource_forbidden, database))
    × (get_delivery_by_id 1 (full_actor co_owner) database
        ≡ (ok (delivery_row 1 DeliveryStatus.en_route), database))
unfolding find_by
owner_scope_lost_example =
    owner_scope_lost 1 4 co_owner database (delivery_row 1 DeliveryStatus.en_route) refl refl
      (ground arith) refl refl

submit_pod_twice_example :
    submit_pod proof (submit_pod proof database).1
    ≡ (ok (replayed (done_response (new_result proof))), (submit_pod proof database).1)
unfolding find_by find_many count_by update_by submit_pod submit_loaded load_stop
    get_stop_and_verify_driver ensure_delivery_operational claim_stop find_record store_response
    claim_key save_response submit_rows recover announce_pod write_pod complete_delivery_if_eligible
    auto_complete_rows claim_delivery evaluate_delivery_completion evaluate_stops unfinished_stops
submit_pod_twice_example =
    submit_pod_twice proof proof 77 database (submit_pod proof database).1 (new_result proof)
      (record {
        stop = record (stop_row 12 1 delivered) { completed_at = some 1000 };
        delivery = record (delivery_row 1 completed) { completed_at = some 1000 };
      })
      refl refl refl refl refl refl

abbrev sync_of_driver : SyncContext
sync_of_driver = record { driver_id = 7; user_id = 30; uuid = λ i. i; endpoint = 5; now = 3000 }

stale : (event : ℕ) → IsStale database (outbox_item event)
unfolding find_by load_stop
stale event = record {
  stop_id = 13;
  loaded = record { stop = stop_row 13 3 pending; delivery = delivery_row 3 cancelled };
  names = refl;
  found = refl;
  gone = refl;
}

sync_stale-Preserved_example :
    Preserved
      (outbox_item 91 ∷ outbox_item 92 ∷ [])
      (record { acked_ids = []; conflict_ids = [] })
      database
      (sync_outbox sync_of_driver (outbox_item 91 ∷ outbox_item 92 ∷ []) database)
sync_stale-Preserved_example =
    sync_stale-Preserved sync_of_driver (outbox_item 91 ∷ outbox_item 92 ∷ []) database
      (stale 91, (stale 92, tt))

resolve_conflict_overrides_example :
    Overridden 13 3 2000 database (resolve_conflict 60 override database).1
unfolding find_by find_many update_by update_delivery resolve_conflict resolve_rows override_stop
    override_evidence upsert_pod force_delivered complete_if_done
resolve_conflict_overrides_example =
    resolve_conflict_overrides 60 13 override ticket (resolved_row override ticket) database
      (resolve_conflict 60 override database).1 refl refl refl refl
