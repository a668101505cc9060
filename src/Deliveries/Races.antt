-- ===== src/Deliveries/Races.antt =====
-- Two requests on one delivery, interleaved between the reads and the writes of one of them.
use be_distribution_system_a.Prelude.{ℕ, true, false, some, ◌≡◌, refl, arith}
use be_distribution_system_a.Prelude.Table.{IsUnique, find_by-update_by}
use be_distribution_system_a.Deliveries.Model.{
  assigned, accepted, is_terminal, DeliveryActor, Delivery,
}
use be_distribution_system_a.Deliveries.World.{World, ok, delivery_key, find_delivery}
use be_distribution_system_a.Deliveries.Service.{
  is_forbidden, update_delivery, read_as_driver, write_accept,
}
use be_distribution_system_a.Deliveries.Completion.{cancel_delivery, set_cancelled}
use be_distribution_system_a.Deliveries.Eligibility.{cancel_delivery_lem, CancelContract}

write_accept_row :
    (k driver user : ℕ) (v : World) (d : Delivery)
    → find_delivery k v ≡ some d
    → find_delivery k (write_accept k driver user v).1 ≡ some (record d { status = accepted })
unfolding write_accept update_delivery
write_accept_row k driver user v d found = ground (
  arith,
  find_by-update_by delivery_key k k (λ _. true) (λ d. record d { status = accepted }) v.deliveries
      (λ d. refl),
)

assigned_may_be_cancelled :
    (k reason : ℕ) (actor : DeliveryActor) (w : World) (d : Delivery)
    → IsUnique delivery_key w.deliveries
    → find_delivery k w ≡ some d
    → is_forbidden d actor ≡ false
    → d.status ≡ assigned
    → find_delivery k (cancel_delivery k reason actor w).1 ≡ some (set_cancelled d)
assigned_may_be_cancelled k reason actor w d unique found allowed e =
    let open_row : is_terminal d.status ≡ false = rw e refl in
    let contract : CancelContract false k d w (cancel_delivery k reason actor w) =
      rw open_row at (cancel_delivery_lem k actor 0 w d unique found allowed reason) in
    contract.1

-- When ids are unique and a delivery is in state ASSIGNED to a driver: if an actor who may see it
-- cancels it after the driver's `acceptDelivery` has read it and before that writes, the read has
-- passed, the cancellation is stored, and the write takes the row from CANCELLED to ACCEPTED.
pub accept_revives_cancelled :
    (k driver user reason : ℕ) (actor : DeliveryActor) (w : World) (d : Delivery)
    → IsUnique delivery_key w.deliveries
    → find_delivery k w ≡ some d
    → is_forbidden d actor ≡ false
    → d.status ≡ assigned
    → d.driver_id ≡ some driver
    → let v = (cancel_delivery k reason actor w).1 in
      ((read_as_driver k driver assigned w).0 ≡ ok tt)
      × (find_delivery k v ≡ some (set_cancelled d))
      × (find_delivery k (write_accept k driver user v).1 ≡ some (record d { status = accepted }))
unfolding read_as_driver
accept_revives_cancelled k driver user reason actor w d unique found allowed e mine =
    let gone = assigned_may_be_cancelled k reason actor w d unique found allowed e in
    (
      ground arith,
      gone,
      write_accept_row k driver user (cancel_delivery k reason actor w).1 (set_cancelled d) gone,
    )
