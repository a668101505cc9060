-- ===== src/Realtime/Scope.antt =====
-- Who joins which room.
use be_distribution_system_a.Prelude.{ℕ, ◌≡◌, refl, not, some, arith, if◌then◌else◌}
use be_distribution_system_a.Deliveries.Model.{
  Role, super_admin, admin, owner, driver, other_role, DeliveryActor, Delivery,
}
use be_distribution_system_a.Deliveries.World.{World, ok, err, find_delivery, resource_forbidden}
use be_distribution_system_a.Deliveries.Service.{get_delivery_by_id, is_forbidden}
use be_distribution_system_a.Realtime.Rooms.{
  RoomTables, permit_if, delivery_rule, authorize_delivery_room, delivery_name, authorize_room_join,
}

-- A role that the routes know.
abbrev pub IsKnown : Role → Type 0
IsKnown (other_role r) = ⊥
IsKnown _ = Unit

delivery_rule_agrees :
    (a : DeliveryActor) (r : Role) (d : Delivery)
    → a.role ≡ r
    → IsKnown r
    → delivery_rule a r d ≡ permit_if (not (is_forbidden d a))
unfolding delivery_rule is_forbidden
delivery_rule_agrees a super_admin d e h = ground arith
delivery_rule_agrees a admin d e h = ground arith
delivery_rule_agrees a owner d e h = ground arith
delivery_rule_agrees a driver d e h = ground arith
delivery_rule_agrees a (other_role r) d e h = absurd h

-- When the authorizer and the service see the same deliveries, for an actor with one of the four
-- roles and a delivery that is there: the room of the delivery is open exactly to whom
-- `getDeliveryById` answers with it: either the room is permitted and the row is returned, or the
-- room is denied and the request is forbidden, and the database is untouched.
pub room_scope :
    (k : ℕ) (a : DeliveryActor) (t : RoomTables) (w : World) (d : Delivery)
    → t.deliveries ≡ w.deliveries
    → find_delivery k w ≡ some d
    → IsKnown a.role
    → (authorize_room_join a (delivery_name (some k)) t ≡ permit_if (not (is_forbidden d a)))
      × (get_delivery_by_id k a w
          ≡ ((if is_forbidden d a then err resource_forbidden else ok d), w))
unfolding authorize_room_join authorize_delivery_room get_delivery_by_id
room_scope k a t w d same found known = (
  rw (same, found, authorize_delivery_room) (delivery_rule_agrees a a.role d refl known),
  ground arith,
)
