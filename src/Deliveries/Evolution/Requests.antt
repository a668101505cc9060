-- ===== src/Deliveries/Evolution/Requests.antt =====
-- Requests and sequences of requests, and the evolution of the database.
use be_distribution_system_a.Prelude.{
  ℕ, Bool, true, false, Option, none, some, ◌≡◌, List, [], ◌∷◌, any, arith, refl,
}
use be_distribution_system_a.Deliveries.Model.{
  OutboxEventItem, conflict_resolved, DeliveryConflict, open_ticket, resolved_overridden,
  resolved_discarded, Delivery, DeliveryStop, is_terminal,
}
use be_distribution_system_a.Deliveries.Conflicts.{
  SyncContext, Resolution, resolve_rows, resolve_conflict, override_if, conflict_key, resolved_row,
}
use be_distribution_system_a.Deliveries.World.{
  World, record_not_found, Action, pure, modify, transaction, ◌>>=◌, find_delivery, find_stop,
}
use be_distribution_system_a.Deliveries.Controllers.{
  Request, create_request, assign_request, accept_request, start_request, complete_request,
  cancel_request, depart_request, arrive_request, unload_request, fail_request, skip_request,
  pod_request, sync_request, resolve_request, is_overriding, guarded, with_profile, route, serve,
  sync_context, sync_route,
}
use be_distribution_system_a.Prelude.Table.{update_by, find_by}
use be_distribution_system_a.Deliveries.Evolution.{Evolves, Evolves-trans, ◌⟶*◌, ◌⇝*◌}
use be_distribution_system_a.Deliveries.Evolution.Rules.{
  Keeps, Evolves-refl, keeping, pure-Keeps, transaction-Keeps, bind-Keeps, audit-Keeps, gets-Keeps,
  or_throw-Keeps,
}
use be_distribution_system_a.Deliveries.Evolution.Service.{
  create-Keeps, assign-Evolves, accept-Evolves, start-Evolves, complete-Keeps, cancel-Keeps,
}
use be_distribution_system_a.Deliveries.Evolution.Stops.{
  depart-Keeps, arrive-Keeps, unload-Keeps, fail-Keeps, skip-Keeps,
}
use be_distribution_system_a.Deliveries.Evolution.Pod.{
  submit-Keeps, sync-Evolves, other_table-Keeps,
}

module _ {ℓ} {A : Type ℓ} where
  guarded-Keeps : (b : Bool) (m : Action A) → Keeps m → Keeps (guarded b m)
  unfolding guarded
  guarded-Keeps b m h = search keeping

  with_profile-Keeps :
      (o : Option ℕ) (f : ℕ → Action A) → ((d : ℕ) → Keeps (f d)) → Keeps (with_profile o f)
  unfolding with_profile
  with_profile-Keeps none f h = search keeping
  with_profile-Keeps (some d) f h = h d

  answered-Keeps : {m : Action A} → Keeps m → Keeps (m >>= λ _. pure (tt {0}))
  answered-Keeps h = search keeping

module _ {ℓ} {A : Type ℓ} where
  driver_route-Keeps :
      (b : Bool) (o : Option ℕ) (f : ℕ → Action A)
      → ((d : ℕ) → Keeps (f d))
      → Keeps (guarded b (with_profile o (λ d. f d >>= λ _. pure (tt {0}))))
  driver_route-Keeps b o f h =
      guarded-Keeps b _ (with_profile-Keeps o _ (λ d. answered-Keeps (h d)))

sync_route-Keeps : (c : SyncContext) (items : List OutboxEventItem) → Keeps (sync_route c items)
unfolding sync_route
sync_route-Keeps c items = record { at = sync-Evolves c items }

ticket-Keeps :
    (k : ℕ) (z : Resolution)
    → Keeps (
        modify λ w. record w {
          conflicts = update_by conflict_key k (λ _. true) (resolved_row z) w.conflicts;
        })
ticket-Keeps k z = other_table-Keeps _ (λ w. refl) (λ w. refl)

-- The resolutions that only close the ticket.
resolve_rows-Keeps :
    (k : ℕ) (z : Resolution) (c : DeliveryConflict)
    → ((d : DeliveryConflict) → Keeps (override_if z.status z d))
    → Keeps (resolve_rows k z c)
unfolding resolve_rows
resolve_rows-Keeps k z c h = bind-Keeps (ticket-Keeps k z) (λ _.
    bind-Keeps (gets-Keeps (λ w. find_by conflict_key k w.conflicts)) (λ o.
      bind-Keeps (or_throw-Keeps o record_not_found) (λ updated. bind-Keeps (h c) (λ _.
        bind-Keeps (audit-Keeps z.user_id (conflict_resolved z.status z.notes) k)
          (λ _. pure-Keeps updated)))))

resolve_tail-Keeps :
    (k : ℕ) (z : Resolution)
    → ((d : DeliveryConflict) → Keeps (override_if z.status z d))
    → (c : DeliveryConflict) → Keeps (transaction (resolve_rows k z c))
resolve_tail-Keeps k z h c = transaction-Keeps (resolve_rows-Keeps k z c h)

resolve-Keeps :
    (k : ℕ) (z : Resolution)
    → ((d : DeliveryConflict) → Keeps (override_if z.status z d))
    → Keeps (resolve_conflict k z)
unfolding resolve_conflict
resolve-Keeps k z h = search (keeping, resolve_tail-Keeps k z h) depth 20

route-Keeps : (r : Request) → is_overriding r ≡ false → Keeps (route r)
unfolding route
route-Keeps (create_request u dto id uuid) h =
    guarded-Keeps _ _ (answered-Keeps (create-Keeps dto u.id id uuid))
route-Keeps (assign_request u k d v) h =
    guarded-Keeps _ _ (answered-Keeps (record { at = assign-Evolves k d v _ }))
route-Keeps (accept_request u k) h =
    driver_route-Keeps _ _ _ (λ d. record { at = accept-Evolves k d u.id })
route-Keeps (start_request u k now) h =
    driver_route-Keeps _ _ _ (λ d. record { at = start-Evolves k d u.id now })
route-Keeps (complete_request u k now) h =
    guarded-Keeps _ _ (answered-Keeps (complete-Keeps k _ now))
route-Keeps (cancel_request u k reason) h =
    guarded-Keeps _ _ (answered-Keeps (cancel-Keeps k reason _))
route-Keeps (depart_request u k) h = driver_route-Keeps _ _ _ (λ d. depart-Keeps k d u.id)
route-Keeps (arrive_request u k now) h = driver_route-Keeps _ _ _ (λ d. arrive-Keeps k d u.id now)
route-Keeps (unload_request u k) h = driver_route-Keeps _ _ _ (λ d. unload-Keeps k d u.id)
route-Keeps (fail_request u k reason now) h =
    driver_route-Keeps _ _ _ (λ d. fail-Keeps k reason d u.id now)
route-Keeps (skip_request u k reason now) h =
    guarded-Keeps _ _ (answered-Keeps (skip-Keeps k reason _ now))
route-Keeps (pod_request u k dto endpoint id now) h = driver_route-Keeps _ _ _ (λ d. submit-Keeps _)
route-Keeps (sync_request u items uuid endpoint now) h =
    driver_route-Keeps _ _ (λ d. sync_route (sync_context u uuid endpoint now d) items)
      (λ d. sync_route-Keeps (sync_context u uuid endpoint now d) items)
route-Keeps (resolve_request u k resolved_overridden notes id now) h = absurd (ground arith)
route-Keeps (resolve_request u k resolved_discarded notes id now) h =
    guarded-Keeps _ _ (answered-Keeps (resolve-Keeps k _ (λ d. pure-Keeps tt)))
route-Keeps (resolve_request u k open_ticket notes id now) h =
    guarded-Keeps _ _ (answered-Keeps (resolve-Keeps k _ (λ d. pure-Keeps tt)))

-- Every sequence of requests none of which overrides a conflict evolves the database.
pub serve-Evolves :
    (rs : List Request) (w : World) → any is_overriding rs ≡ false → Evolves w (serve rs w)
unfolding serve
serve-Evolves [] w h = Evolves-refl w
serve-Evolves (r ∷ rs) w h =
    Evolves-trans w (route r w).1 _ ((route-Keeps r (ground arith)).at w)
      (serve-Evolves rs (route r w).1 (ground arith))

module _ (rs : List Request) (w : World) (k : ℕ) (plain : any is_overriding rs ≡ false) where
  -- Whatever writing requests of the controllers of deliveries, stops, conflicts and PODs are served,
  -- in whatever order and whether or not they fail, as long as none of them resolves a conflict with
  -- RESOLVED_OVERRIDDEN: a delivery that was there is still there, and its state has moved along the
  -- edges of the code's diagram only, which has the cancellation of a DRAFT and the reassignment of an
  -- ASSIGNED delivery too.
  pub serve_delivery_moves :
      (d : Delivery)
      → find_delivery k w ≡ some d
      → (d' : Delivery) × (find_delivery k (serve rs w) ≡ some d') × (d.status ⟶* d'.status)
  serve_delivery_moves d found = (serve-Evolves rs w plain).delivery_moves k d found

  -- A delivery in a terminal state is exactly as it was after any writing requests of the controllers
  -- of deliveries, stops, conflicts and PODs, as long as none of them resolves a conflict with
  -- RESOLVED_OVERRIDDEN.
  pub serve_delivery_frozen :
      (d : Delivery)
      → find_delivery k w ≡ some d
      → is_terminal d.status ≡ true
      → find_delivery k (serve rs w) ≡ some d
  serve_delivery_frozen d found closed = (serve-Evolves rs w plain).delivery_closed k d found closed

  -- After any writing requests of the controllers of deliveries, stops, conflicts and PODs none of
  -- which resolves a conflict with RESOLVED_OVERRIDDEN, a stop that was there is still there and
  -- belongs to the same delivery, and its state has moved along the edges of the code's diagram only,
  -- which lets a PENDING stop arrive, an ARRIVED one be delivered and one EN_ROUTE fail too.
  pub serve_stop_moves :
      (s : DeliveryStop)
      → find_stop k w ≡ some s
      → (s' : DeliveryStop) × (find_stop k (serve rs w) ≡ some s')
        × (s'.delivery_id ≡ s.delivery_id)
        × (s.status ⇝* s'.status)
  serve_stop_moves s found = (serve-Evolves rs w plain).stop_moves k s found

  -- A stop of a delivery in a terminal state is exactly as it was after any writing requests of the
  -- controllers of deliveries, stops, conflicts and PODs, as long as none of them resolves a conflict
  -- with RESOLVED_OVERRIDDEN.
  pub serve_stop_frozen :
      (s : DeliveryStop) (d : Delivery)
      → find_stop k w ≡ some s
      → find_delivery s.delivery_id w ≡ some d
      → is_terminal d.status ≡ true
      → find_stop k (serve rs w) ≡ some s
  serve_stop_frozen s d found parent closed =
      (serve-Evolves rs w plain).stop_frozen k s d found parent closed
