-- ===== src/Deliveries/Service.antt =====
-- src/modules/deliveries/services/deliveries.service.ts. A handler takes the time `now`, and the
-- ids that the database or `uuidv4` generates. `read_…` and `write_…` are the parts of a handler
-- before and after its first write, since other requests may run between the two.
use be_distribution_system_a.Prelude.{
  ℕ, zero, suc, Bool, true, false, not, ◌&&◌, ◌||◌, Option, none, some, List, [], ◌∷◌, ◌++◌, map,
  ◌==◌, is_some_of, both_same, any,
}
use be_distribution_system_a.Prelude.Table.{find_by, find_many, update_by, count_by}
use be_distribution_system_a.Deliveries.Model.{
  recommended_mode, DeliveryStatus, draft, assigned, accepted, pending, is_delivery_status,
  is_driver, is_owner, driver, DeliveryActor, Delivery, DeliveryItem, DeliveryStop,
  delivery_created, delivery_accepted, delivery_started, delivery_assigned, CreateDeliveryItemDto,
  CreateDeliveryStopDto, CreateDeliveryDto,
}
use be_distribution_system_a.Deliveries.World.{
  delivery_room, fleet_monitoring, status_changed, delivery_not_found, resource_forbidden,
  duplicate_delivery_code, invalid_state_transition, driver_not_found, vehicle_not_found,
  record_not_found, unique_constraint, Action, ok, pure, gets, or_throw, transaction, ◌>>=◌, ◌>>◌,
  throw_if, modify, delivery_key, stop_delivery, find_delivery, audit, emit,
}

-- broadcastStatusChanged
abbrev pub broadcast_status_changed : ℕ → DeliveryStatus → DeliveryActor → Action (Unit {0})
broadcast_status_changed k s actor = do
  emit (delivery_room k) (status_changed k s) actor
  emit fleet_monitoring (status_changed k s) actor

-- `{ userId, role: 'DRIVER', driverId }`
abbrev pub driver_actor : ℕ → ℕ → DeliveryActor
driver_actor driver_id user_id = record {
  user_id = user_id;
  role = driver;
  driver_id = some driver_id;
  organization_id = none;
}

-- Who may see a delivery, as `getDeliveryById` tests it.
unfoldable pub is_forbidden : Delivery → DeliveryActor → Bool
is_forbidden d actor =
    is_driver actor.role && not (both_same actor.driver_id d.driver_id)
    || is_owner actor.role
      && not (d.created_by == actor.user_id || both_same actor.organization_id d.organization_id)

unfoldable pub get_delivery_by_id : ℕ → DeliveryActor → Action Delivery
get_delivery_by_id k actor = do
  d ← or_throw (← gets (find_delivery k)) delivery_not_found
  throw_if (is_forbidden d actor) resource_forbidden
  pure d

-- `delivery.update({ where: { id }, data })`: P2025 if there is no such row.
unfoldable pub update_delivery : ℕ → (Delivery → Delivery) → Action Delivery
update_delivery k f = do
  or_throw (← gets (find_delivery k)) record_not_found >>= λ _.
      modify λ w. record w { deliveries = update_by delivery_key k (λ _. true) f w.deliveries }
  or_throw (← gets (find_delivery k)) record_not_found

-- `delivery.updateMany({ where: { id, …q }, data })`; the result is whether its count is 1.
unfoldable pub claim_delivery : ℕ → (Delivery → Bool) → (Delivery → Delivery) → Action Bool
claim_delivery k q f w = (
  ok (count_by delivery_key k q w.deliveries == 1),
  record w { deliveries = update_by delivery_key k q f w.deliveries },
)

abbrev code_key : Delivery → ℕ
code_key d = d.delivery_code

-- `x || null` of a number: zero is null.
abbrev or_null : Option ℕ → Option ℕ
or_null none = none
or_null (some zero) = none
or_null (some (suc n)) = some (suc n)

-- `x || 100`
abbrev or_default : Option ℕ → ℕ → ℕ
or_default none d = d
or_default (some zero) d = d
or_default (some (suc n)) d = suc n

new_item : ℕ → CreateDeliveryItemDto → DeliveryItem
new_item delivery_id item = record {
  delivery_id = delivery_id;
  item_code = item.item_code;
  item_name = item.item_name;
  quantity = item.quantity;
  unit = item.unit;
  weight_kg = or_null item.weight_kg;
  volume_m3 = or_null item.volume_m3;
}

unfoldable pub new_stop : ℕ → ℕ → CreateDeliveryStopDto → DeliveryStop
new_stop delivery_id id stop = record {
  id = id;
  delivery_id = delivery_id;
  sequence = stop.sequence;
  destination_name = stop.destination_name;
  address = stop.address;
  latitude = stop.latitude;
  longitude = stop.longitude;
  geofence_radius_m = or_default stop.geofence_radius_m 100;
  status = pending;
  arrived_at = none;
  completed_at = none;
}

unfoldable pub new_delivery : ℕ → CreateDeliveryDto → ℕ → Delivery
new_delivery id dto creator = record {
  id = id;
  delivery_code = dto.delivery_code;
  driver_id = none;
  vehicle_id = none;
  organization_id = none;
  status = draft;
  route_mode = recommended_mode;
  planned_start_at = dto.planned_start_at;
  started_at = none;
  completed_at = none;
  created_by = creator;
}

-- The INSERT fails on the unique index of (deliveryId, sequence).
abbrev same_sequence : ℕ → DeliveryStop → Bool
same_sequence n s = s.sequence == n

unfoldable pub insert_stops : ℕ → (ℕ → ℕ) → ℕ → List CreateDeliveryStopDto → Action (Unit {0})
insert_stops delivery_id uuid i [] = pure tt
insert_stops delivery_id uuid i (stop ∷ rest) =
    (gets (λ w. any (same_sequence stop.sequence) (find_many stop_delivery delivery_id w.stops))
      >>= λ taken. throw_if taken unique_constraint)
    >> (modify (λ w. record w { stops = w.stops ++ new_stop delivery_id (uuid i) stop ∷ [] })
        >> insert_stops delivery_id uuid (suc i) rest)

abbrev is_present {ℓ} : {A : Type ℓ} → Option A → Bool
is_present none = false
is_present (some a) = true

-- The body of the transaction of `createDelivery`.
unfoldable pub create_rows : CreateDeliveryDto → ℕ → ℕ → (ℕ → ℕ) → Action Delivery
unfolding new_item
create_rows dto creator id uuid = do
  let delivery = new_delivery id dto creator
  throw_if (is_present (← gets (λ w. find_by code_key dto.delivery_code w.deliveries)))
      unique_constraint
  modify λ w. record w { deliveries = w.deliveries ++ delivery ∷ [] }
  modify λ w. record w { items = w.items ++ map (new_item id) dto.items }
  insert_stops id uuid 0 dto.stops
  audit creator delivery_created id
  pure delivery

unfoldable pub create_delivery : CreateDeliveryDto → ℕ → ℕ → (ℕ → ℕ) → Action Delivery
create_delivery dto creator id uuid = do
  throw_if (is_present (← gets (λ w. find_by code_key dto.delivery_code w.deliveries)))
      duplicate_delivery_code
  transaction (create_rows dto creator id uuid)

abbrev contains : List ℕ → ℕ → Bool
contains xs k = any (λ x. x == k) xs

unfoldable pub read_assign : ℕ → ℕ → ℕ → DeliveryActor → Action (Unit {0})
read_assign k driver_id vehicle_id actor = do
  d ← get_delivery_by_id k actor
  throw_if (not (is_delivery_status draft d.status || is_delivery_status assigned d.status))
      invalid_state_transition
  throw_if (not (contains (← gets (λ w. w.drivers)) driver_id)) driver_not_found
  throw_if (not (contains (← gets (λ w. w.vehicles)) vehicle_id)) vehicle_not_found

unfoldable pub write_assign : ℕ → ℕ → ℕ → DeliveryActor → Action Delivery
write_assign k driver_id vehicle_id actor = do
  updated ←
      update_delivery k λ d. record d {
        driver_id = some driver_id;
        vehicle_id = some vehicle_id;
        status = assigned;
      }
  audit actor.user_id (delivery_assigned driver_id vehicle_id) k
  broadcast_status_changed k assigned actor
  pure updated

unfoldable pub assign_delivery : ℕ → ℕ → ℕ → DeliveryActor → Action Delivery
assign_delivery k driver_id vehicle_id actor =
    read_assign k driver_id vehicle_id actor >> write_assign k driver_id vehicle_id actor

-- The reads of `acceptDelivery` and `startDelivery`: the assigned driver, and the expected state.
unfoldable pub read_as_driver : ℕ → ℕ → DeliveryStatus → Action (Unit {0})
read_as_driver k driver_id expected = do
  d ← or_throw (← gets (find_delivery k)) delivery_not_found
  throw_if (not (is_some_of driver_id d.driver_id)) resource_forbidden
  throw_if (not (is_delivery_status expected d.status)) invalid_state_transition

unfoldable pub write_accept : ℕ → ℕ → ℕ → Action Delivery
write_accept k driver_id user_id = do
  updated ← update_delivery k λ d. record d { status = accepted }
  audit user_id delivery_accepted k
  broadcast_status_changed k accepted (driver_actor driver_id user_id)
  pure updated

unfoldable pub accept_delivery : ℕ → ℕ → ℕ → Action Delivery
accept_delivery k driver_id user_id =
    read_as_driver k driver_id assigned >> write_accept k driver_id user_id

unfoldable pub write_start : ℕ → ℕ → ℕ → ℕ → Action Delivery
write_start k driver_id user_id now = do
  updated ←
      update_delivery k λ d. record d { status = DeliveryStatus.en_route; started_at = some now }
  audit user_id delivery_started k
  broadcast_status_changed k DeliveryStatus.en_route (driver_actor driver_id user_id)
  pure updated

unfoldable pub start_delivery : ℕ → ℕ → ℕ → ℕ → Action Delivery
start_delivery k driver_id user_id now =
    read_as_driver k driver_id accepted >> write_start k driver_id user_id now
