-- ===== src/Deliveries/Evolution/Service.antt =====
-- The handlers of a delivery and the evolution of the database.
use be_distribution_system_a.Prelude.{
  ℕ, suc, Bool, true, false, ◌||◌, none, some, ◌≡◌, refl, sym, inl, inr, List, [], ◌∷◌, ◌++◌, arith,
  Option-cases,
}
use mathlib.Core.Path.{subst}
use be_distribution_system_a.Prelude.Table.{update_by, find_by-append}
use be_distribution_system_a.Deliveries.Model.{
  DeliveryStatus, draft, assigned, accepted, is_terminal, is_delivery_status, DeliveryActor,
  Delivery, DeliveryStop, DeliveryItem, delivery_accepted, delivery_started, delivery_assigned,
  CreateDeliveryDto, CreateDeliveryStopDto,
}
use be_distribution_system_a.Deliveries.World.{
  World, Action, ok, ◌>>=◌, ◌>>◌, audit, pure, modify, delivery_key, stop_key, find_delivery,
}
use be_distribution_system_a.Deliveries.Service.{
  broadcast_status_changed, driver_actor, get_delivery_by_id, update_delivery, insert_stops,
  create_rows, create_delivery, read_assign, write_assign, assign_delivery, read_as_driver,
  write_accept, accept_delivery, write_start, start_delivery,
}
use be_distribution_system_a.Deliveries.Completion.{
  complete_found, complete_delivery, cancel_delivery,
}
use be_distribution_system_a.Deliveries.Evolution.{
  ◌⟶◌, assign, reassign, accept, start, Evolves, Evolves-same, stay, rest,
}
use be_distribution_system_a.Deliveries.Evolution.Rules.{
  Keeps, MovesDelivery, update_delivery-Evolves, bind-Evolves, Evolves-refl, keeping,
}
use be_distribution_system_a.Deliveries.Evolution.Completion.{
  broadcast-Keeps, write_complete-Keeps, write_cancel-Keeps,
}

pub get_delivery-Keeps : (k : ℕ) (a : DeliveryActor) → Keeps (get_delivery_by_id k a)
unfolding get_delivery_by_id
get_delivery-Keeps k a = search keeping depth 9

complete_found-Keeps :
    (k : ℕ) (a : DeliveryActor) (now : ℕ) (d : Delivery) → Keeps (complete_found k a now d)
unfolding complete_found
complete_found-Keeps k a now d = go (is_delivery_status DeliveryStatus.completed d.status) refl
  where
    go :
        (b : Bool)
        → is_delivery_status DeliveryStatus.completed d.status ≡ b
        → Keeps (complete_found k a now d)
    go true e = rw (e, complete_found) (search keeping)
    go false e = rw (e, complete_found) (search (keeping, write_complete-Keeps))

pub complete-Keeps : (k : ℕ) (a : DeliveryActor) (now : ℕ) → Keeps (complete_delivery k a now)
unfolding complete_delivery
complete-Keeps k a now = search (keeping, get_delivery-Keeps, complete_found-Keeps)

pub cancel-Keeps : (k reason : ℕ) (a : DeliveryActor) → Keeps (cancel_delivery k reason a)
unfolding cancel_delivery
cancel-Keeps k reason a = search (keeping, get_delivery-Keeps, write_cancel-Keeps)

update_absent :
    (k : ℕ) (f : Delivery → Delivery) (w : World)
    → find_delivery k w ≡ none
    → (update_delivery k f w).1 ≡ w
unfolding update_delivery
update_absent k f w h = ground arith

pub update_present :
    (k : ℕ) (f : Delivery → Delivery) (w : World) (d : Delivery)
    → find_delivery k w ≡ some d
    → (update_delivery k f w).1
      ≡ record w { deliveries = update_by delivery_key k (λ _. true) f w.deliveries }
unfolding update_delivery
update_present k f w d h = ground arith

-- `update` of a row that was found, along an edge from its state.
pub update_row-Evolves :
    (k : ℕ) (f : Delivery → Delivery) (w : World)
    → ((d : Delivery) → (f d).id ≡ d.id)
    → ((d : Delivery) → find_delivery k w ≡ some d → MovesDelivery f d)
    → Evolves w (update_delivery k f w).1
update_row-Evolves k f w ids moves = elim (Option-cases (find_delivery k w)) [
  | inl e ↦ rw (update_absent k f w e) (Evolves-refl w)
  | inr (d, e) ↦
      rw (update_present k f w d e)
        (update_delivery-Evolves w k (λ _. true) f ids (λ d' h _. moves d' h))
]

-- The reads of a handler change nothing, and what follows them starts at the same database.
read_then-Evolves {ℓ} :
    {A : Type ℓ} (m : Action (Unit {0})) (n : Action A) (w : World)
    → (m w).1 ≡ w
    → ((m w).0 ≡ ok tt → Evolves w (n w).1)
    → Evolves w ((m >> n) w).1
read_then-Evolves m n w same after =
    bind-Evolves m (λ _. n) w (rw same (Evolves-refl w))
      (λ a h. subst (λ v. Evolves v (n v).1) (sym same) (after h))

read_as_driver_same : (k d : ℕ) (s : DeliveryStatus) (w : World) → (read_as_driver k d s w).1 ≡ w
unfolding read_as_driver
read_as_driver_same k d s w = ground arith

read_as_driver_status :
    (k driver : ℕ) (s : DeliveryStatus) (w : World) (d : Delivery)
    → (read_as_driver k driver s w).0 ≡ ok tt
    → find_delivery k w ≡ some d
    → is_delivery_status s d.status ≡ true
unfolding read_as_driver
read_as_driver_status k driver s w d h f = ground arith

read_assign_same : (k d v : ℕ) (a : DeliveryActor) (w : World) → (read_assign k d v a w).1 ≡ w
unfolding read_assign get_delivery_by_id
read_assign_same k d v a w = ground arith

read_assign_status :
    (k driver v : ℕ) (a : DeliveryActor) (w : World) (d : Delivery)
    → (read_assign k driver v a w).0 ≡ ok tt
    → find_delivery k w ≡ some d
    → (is_delivery_status draft d.status || is_delivery_status assigned d.status) ≡ true
unfolding read_assign get_delivery_by_id
read_assign_status k driver v a w d h f = ground arith

-- The edges of the updates, from the states that the reads have found.
accept_moves :
    (d : Delivery)
    → is_delivery_status assigned d.status ≡ true
    → MovesDelivery (λ d. record d { status = accepted }) d
accept_moves d h =
    let e : d.status ≡ assigned = ground arith in
    (ground arith, subst (λ s. s ⟶ accepted) (sym e) accept)

start_moves :
    (now : ℕ) (d : Delivery)
    → is_delivery_status accepted d.status ≡ true
    → MovesDelivery (λ d. record d { status = DeliveryStatus.en_route; started_at = some now }) d
start_moves now d h =
    let e : d.status ≡ accepted = ground arith in
    (ground arith, subst (λ s. s ⟶ DeliveryStatus.en_route) (sym e) start)

assign_edge :
    (s : DeliveryStatus)
    → (is_delivery_status draft s || is_delivery_status assigned s) ≡ true
    → (is_terminal s ≡ false) × (s ⟶ assigned)
assign_edge draft h = (refl, assign)
assign_edge assigned h = (refl, reassign)
assign_edge _ h = cc

-- `update` and what follows it.
update_then-Evolves :
    (k : ℕ) (f : Delivery → Delivery) (g : Delivery → Action Delivery) (w : World)
    → ((d : Delivery) → (f d).id ≡ d.id)
    → ((d : Delivery) → Keeps (g d))
    → ((d : Delivery) → find_delivery k w ≡ some d → MovesDelivery f d)
    → Evolves w ((update_delivery k f >>= g) w).1
update_then-Evolves k f g w ids after moves =
    bind-Evolves (update_delivery k f) g w (update_row-Evolves k f w ids moves)
      (λ d _. (after d).at _)

accept_rest :
    (k d u : ℕ) (updated : Delivery)
    → Keeps (
        audit u delivery_accepted k
        >> (broadcast_status_changed k accepted (driver_actor d u) >> pure updated))
accept_rest k d u updated = search (keeping, broadcast-Keeps)

pub accept-Evolves : (k d u : ℕ) (w : World) → Evolves w (accept_delivery k d u w).1
unfolding accept_delivery
accept-Evolves k d u w =
    read_then-Evolves (read_as_driver k d assigned) (write_accept k d u) w
      (read_as_driver_same k d assigned w)
      (λ h.
        unfold write_accept in
        update_then-Evolves k (λ d. record d { status = accepted }) _ w (λ d. refl)
          (accept_rest k d u)
          (λ d' f. accept_moves d' (read_as_driver_status k d assigned w d' h f)))

start_rest :
    (k d u : ℕ) (updated : Delivery)
    → Keeps (
        audit u delivery_started k
        >> (broadcast_status_changed k DeliveryStatus.en_route (driver_actor d u) >> pure updated))
start_rest k d u updated = search (keeping, broadcast-Keeps)

pub start-Evolves : (k d u now : ℕ) (w : World) → Evolves w (start_delivery k d u now w).1
unfolding start_delivery
start-Evolves k d u now w =
    read_then-Evolves (read_as_driver k d accepted) (write_start k d u now) w
      (read_as_driver_same k d accepted w)
      (λ h.
        unfold write_start in
        update_then-Evolves k
          (λ d. record d { status = DeliveryStatus.en_route; started_at = some now }) _ w
          (λ d. refl) (start_rest k d u)
          (λ d' f. start_moves now d' (read_as_driver_status k d accepted w d' h f)))

assign_rest :
    (k d v : ℕ) (a : DeliveryActor) (updated : Delivery)
    → Keeps (
        audit a.user_id (delivery_assigned d v) k
        >> (broadcast_status_changed k assigned a >> pure updated))
assign_rest k d v a updated = search (keeping, broadcast-Keeps)

pub assign-Evolves :
    (k d v : ℕ) (a : DeliveryActor) (w : World) → Evolves w (assign_delivery k d v a w).1
unfolding assign_delivery
assign-Evolves k d v a w =
    read_then-Evolves (read_assign k d v a) (write_assign k d v a) w (read_assign_same k d v a w)
      (λ h.
        unfold write_assign in
        update_then-Evolves k
          (λ r. record r { driver_id = some d; vehicle_id = some v; status = assigned }) _ w
          (λ d. refl) (assign_rest k d v a)
          (λ d' f. assign_edge d'.status (read_assign_status k d v a w d' h f)))

-- Rows that are appended leave the others alone.
append_stops-Keeps : (s : List DeliveryStop) → Keeps (modify λ w. record w { stops = w.stops ++ s })
append_stops-Keeps ss = record {
  at = λ w. record {
    delivery_moves = λ k d h. (d, h, stay);
    delivery_closed = λ k d h t. h;
    stop_moves = λ k s h. (s, find_by-append stop_key k w.stops ss s h, refl, rest);
    stop_frozen = λ k s d h g t. find_by-append stop_key k w.stops ss s h;
  };
}

append_deliveries-Keeps :
    (ds : List Delivery) → Keeps (modify λ w. record w { deliveries = w.deliveries ++ ds })
append_deliveries-Keeps ds = record {
  at = λ w. record {
    delivery_moves = λ k d h. (d, find_by-append delivery_key k w.deliveries ds d h, stay);
    delivery_closed = λ k d h t. find_by-append delivery_key k w.deliveries ds d h;
    stop_moves = λ k s h. (s, h, refl, rest);
    stop_frozen = λ k s d h g t. h;
  };
}

append_items-Keeps :
    (is : List DeliveryItem) → Keeps (modify λ w. record w { items = w.items ++ is })
append_items-Keeps is = record { at = λ w. Evolves-same w _ refl refl }

insert_stops-Keeps :
    (k : ℕ) (uuid : ℕ → ℕ) (i : ℕ) (ss : List CreateDeliveryStopDto)
    → Keeps (insert_stops k uuid i ss)
unfolding insert_stops
insert_stops-Keeps k uuid i [] = search keeping
insert_stops-Keeps k uuid i (s ∷ ss) =
    let after : Keeps (insert_stops k uuid (suc i) ss) = insert_stops-Keeps k uuid (suc i) ss in
    search (keeping, append_stops-Keeps) depth 8

create_rows-Keeps :
    (dto : CreateDeliveryDto) (u id : ℕ) (uuid : ℕ → ℕ) → Keeps (create_rows dto u id uuid)
unfolding create_rows
create_rows-Keeps dto u id uuid =
    search (keeping, append_deliveries-Keeps, append_items-Keeps, insert_stops-Keeps) depth 14

pub create-Keeps :
    (dto : CreateDeliveryDto) (u id : ℕ) (uuid : ℕ → ℕ) → Keeps (create_delivery dto u id uuid)
unfolding create_delivery
create-Keeps dto u id uuid = search (keeping, create_rows-Keeps) depth 9
