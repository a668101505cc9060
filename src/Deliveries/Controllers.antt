-- ===== src/Deliveries/Controllers.antt =====
-- The routes of deliveries.controller.ts, stops.controller.ts, conflicts.controller.ts and
-- pod.controller.ts, with the role guard (src/common/guards/roles.guard.ts) before each.
use be_distribution_system_a.Prelude.{
  ℕ, Bool, true, false, not, ◌||◌, Option, none, some, List, [], ◌∷◌,
}
use be_distribution_system_a.Deliveries.Model.{
  Role, super_admin, admin, is_driver, is_owner, DeliveryActor, Delivery, CreateDeliveryDto,
  SubmitPodDto, OutboxEventItem, ConflictStatus, resolved_overridden,
}
use be_distribution_system_a.Deliveries.World.{
  World, Action, insufficient_role, driver_profile_required, ok, ◌>>=◌, ◌>>◌, throw, throw_if, pure,
}
use be_distribution_system_a.Deliveries.Service.{
  get_delivery_by_id, create_delivery, assign_delivery, accept_delivery, start_delivery,
}
use be_distribution_system_a.Deliveries.Completion.{complete_delivery, cancel_delivery}
use be_distribution_system_a.Deliveries.Stops.{
  depart_to_stop, arrive_at_stop, start_unloading, fail_stop, skip_stop,
}
use be_distribution_system_a.Deliveries.Pod.{PodAnswer, submit_pod}
use be_distribution_system_a.Deliveries.Conflicts.{
  SyncContext, SyncReport, sync_outbox, Resolution, resolve_conflict,
}

-- `request.user`, as the JWT strategy fills it.
pub record User : Type 0 where
  pub id : ℕ
  pub role : Role
  pub driver_id : Option ℕ
  pub organization_id : Option ℕ

-- extractActor
unfoldable pub extract_actor : User → DeliveryActor
extract_actor u = record {
  user_id = u.id;
  role = u.role;
  driver_id = u.driver_id;
  organization_id = none;
}

abbrev is_admin : Role → Bool
is_admin super_admin = true
is_admin admin = true
is_admin _ = false

-- @Roles('ADMIN', 'SUPER_ADMIN', 'OWNER')
abbrev pub is_operator : Role → Bool
is_operator r = is_admin r || is_owner r

-- @Roles('ADMIN', 'SUPER_ADMIN', 'OWNER', 'DRIVER')
abbrev pub is_known : Role → Bool
is_known r = is_operator r || is_driver r

module _ {ℓ} {A : Type ℓ} where
  -- RolesGuard.canActivate
  unfoldable pub guarded : Bool → Action A → Action A
  guarded allowed m = throw_if (not allowed) insufficient_role >> m

  -- `if (!user.driverId) throw …`
  unfoldable pub with_profile : Option ℕ → (ℕ → Action A) → Action A
  with_profile none f = throw driver_profile_required
  with_profile (some d) f = f d

  abbrev driver_route : User → (ℕ → Action A) → Action A
  driver_route u f = guarded (is_driver u.role) (with_profile u.driver_id f)

unfoldable pub get_delivery_route : ℕ → User → Action Delivery
get_delivery_route k u = guarded (is_known u.role) (get_delivery_by_id k (extract_actor u))

-- The requests that write, each with the time and the ids that are generated for it.
pub data Request : Type 0 where
  create_request : User → CreateDeliveryDto → ℕ → (ℕ → ℕ) → Request
  assign_request : User → ℕ → ℕ → ℕ → Request
  accept_request : User → ℕ → Request
  start_request : User → ℕ → ℕ → Request
  complete_request : User → ℕ → ℕ → Request
  cancel_request : User → ℕ → ℕ → Request
  depart_request : User → ℕ → Request
  arrive_request : User → ℕ → ℕ → Request
  unload_request : User → ℕ → Request
  fail_request : User → ℕ → Option ℕ → ℕ → Request
  skip_request : User → ℕ → Option ℕ → ℕ → Request
  pod_request : User → ℕ → SubmitPodDto → ℕ → ℕ → ℕ → Request
  sync_request : User → List OutboxEventItem → (ℕ → ℕ) → ℕ → ℕ → Request
  resolve_request : User → ℕ → ConflictStatus → Option ℕ → ℕ → ℕ → Request

-- A request to resolve a ticket with RESOLVED_OVERRIDDEN.
abbrev pub is_overriding : Request → Bool
is_overriding (resolve_request u k resolved_overridden notes id now) = true
is_overriding _ = false

-- What `resolveConflict` is given: the ticket's new state and notes, and the user.
abbrev pub resolution_of : User → ConflictStatus → Option ℕ → ℕ → ℕ → Resolution
resolution_of u status notes id now = record {
  status = status;
  notes = notes;
  user_id = u.id;
  role = u.role;
  pod_id = id;
  now = now;
}

-- Answers are left out: what a request does to the database and the gateway.
abbrev answered {ℓ} : {A : Type ℓ} → Action A → Action (Unit {0})
answered m = m >>= λ _. pure tt

pod_route : User → ℕ → SubmitPodDto → ℕ → ℕ → ℕ → ℕ → Action PodAnswer
pod_route u stop_id dto endpoint pod_id now driver_id = submit_pod record {
  stop_id = stop_id;
  dto = dto;
  actor = record {
    user_id = u.id;
    role = u.role;
    driver_id = some driver_id;
    organization_id = none;
  };
  endpoint = endpoint;
  pod_id = pod_id;
  now = now;
}

abbrev pub sync_context : User → (ℕ → ℕ) → ℕ → ℕ → ℕ → SyncContext
sync_context u uuid endpoint now driver_id = record {
  driver_id = driver_id;
  user_id = u.id;
  uuid = uuid;
  endpoint = endpoint;
  now = now;
}

unfoldable pub sync_route : SyncContext → List OutboxEventItem → Action SyncReport
sync_route c items w = let (report, w') = sync_outbox c items w in (ok report, w')

unfoldable pub route : Request → Action (Unit {0})
unfolding pod_route
route (create_request u dto id uuid) =
    guarded (is_operator u.role) (answered (create_delivery dto u.id id uuid))
route (assign_request u k d v) =
    guarded (is_operator u.role) (answered (assign_delivery k d v (extract_actor u)))
route (accept_request u k) = driver_route u (λ d. answered (accept_delivery k d u.id))
route (start_request u k now) = driver_route u (λ d. answered (start_delivery k d u.id now))
route (complete_request u k now) =
    guarded (is_known u.role) (answered (complete_delivery k (extract_actor u) now))
route (cancel_request u k reason) =
    guarded (is_operator u.role) (answered (cancel_delivery k reason (extract_actor u)))
route (depart_request u k) = driver_route u (λ d. answered (depart_to_stop k d u.id))
route (arrive_request u k now) = driver_route u (λ d. answered (arrive_at_stop k d u.id now))
route (unload_request u k) = driver_route u (λ d. answered (start_unloading k d u.id))
route (fail_request u k reason now) = driver_route u (λ d. answered (fail_stop k reason d u.id now))
route (skip_request u k reason now) =
    guarded (is_known u.role) (answered (skip_stop k reason (extract_actor u) now))
route (pod_request u k dto endpoint id now) =
    driver_route u (λ d. answered (pod_route u k dto endpoint id now d))
route (sync_request u items uuid endpoint now) =
    driver_route u (λ d. answered (sync_route (sync_context u uuid endpoint now d) items))
route (resolve_request u k status notes id now) =
    guarded (is_operator u.role)
      (answered (resolve_conflict k (resolution_of u status notes id now)))

-- The requests of a day, one after the other.
unfoldable pub serve : List Request → World → World
serve [] w = w
serve (r ∷ rs) w = serve rs (route r w).1
