-- ===== src/Deliveries/Access.antt =====
-- Owners and the route GET /deliveries/:id (src/modules/deliveries/deliveries.controller.ts).
use be_distribution_system_a.Prelude.{ℕ, some, ◌≡◌, ◌≢◌, arith}
use be_distribution_system_a.Deliveries.Model.{owner, DeliveryActor, Delivery}
use be_distribution_system_a.Deliveries.World.{World, ok, err, resource_forbidden, find_delivery}
use be_distribution_system_a.Deliveries.Service.{get_delivery_by_id, is_forbidden}
use be_distribution_system_a.Deliveries.Controllers.{
  User, extract_actor, guarded, get_delivery_route,
}

-- The actor with the organisation that the JWT strategy has put on the user.
abbrev pub full_actor : User → DeliveryActor
full_actor u = record {
  user_id = u.id;
  role = u.role;
  driver_id = u.driver_id;
  organization_id = u.organization_id;
}

-- An owner who has not created a delivery of the own organisation is refused by the route
-- GET /deliveries/:id, although `getDeliveryById` answers the same owner with the delivery if the
-- organisation is handed over.
pub owner_scope_lost :
    (k org : ℕ) (u : User) (w : World) (d : Delivery)
    → find_delivery k w ≡ some d
    → u.role ≡ owner
    → d.created_by ≢ u.id
    → u.organization_id ≡ some org
    → d.organization_id ≡ some org
    → (get_delivery_route k u w ≡ (err resource_forbidden, w))
      × (get_delivery_by_id k (full_actor u) w ≡ (ok d, w))
unfolding get_delivery_route guarded get_delivery_by_id is_forbidden extract_actor
owner_scope_lost k org u w d found e other mine theirs = (ground arith, ground arith)
