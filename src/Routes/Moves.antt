-- ===== src/Routes/Moves.antt =====
-- reorderStops of src/modules/routes/services/routes-domain.service.ts.
use be_distribution_system_a.Prelude.{
  ℕ, zero, suc, Bool, true, false, not, ◌&&◌, ◌||◌, Option, none, some, List, [], ◌∷◌, ◌==◌,
  if◌then◌else◌, map,
}
use be_distribution_system_a.Prelude.Table.{find_by, update_by}
use be_distribution_system_a.Routes.Domain.{
  manual, Place, at, parked, PlacedStop, RouteResult, RouteTables, RouteAnswer, route_failed,
  placed_key, granted, denied, stop_ids,
}
use be_distribution_system_a.Routes.Selection.{
  RouteRequest, StopSequenceItem, item_stop, item_sequence, ◌>>=◌, check_request, claim_key,
  write_route, set_error, answer_request,
}

-- `-sequence`
abbrev pub negate : ℕ → Place
negate zero = at 0
negate (suc n) = parked n

abbrev pub same_place : Place → Place → Bool
same_place (at m) (at n) = m == n
same_place (parked m) (parked n) = m == n
same_place _ _ = false

-- @@unique([deliveryId, sequence]): another stop of the delivery has the place.
unfoldable pub is_taken : ℕ → ℕ → Place → List PlacedStop → Bool
is_taken delivery k p [] = false
is_taken delivery k p (s ∷ ss) =
    (s.delivery_id == delivery && same_place s.place p && not (s.id == k))
    || is_taken delivery k p ss

abbrev pub placed_at : Place → PlacedStop → PlacedStop
placed_at p s = record s { place = p }

abbrev pub put : ℕ → Place → List PlacedStop → List PlacedStop
put k p ss = update_by placed_key k (λ s. true) (placed_at p) ss

-- `deliveryStop.update({ where: { id }, data: { sequence } })`
unfoldable pub place_stop : ℕ → Place → List PlacedStop → Option (List PlacedStop)
place_stop k p ss = elim (find_by placed_key k ss) [
  | none ↦ none
  | some s ↦ if is_taken s.delivery_id k p ss then none else some (put k p ss)
]

-- One of the two loops of `reorderStops`.
unfoldable pub place_all :
    (ℕ → Place) → List StopSequenceItem → List PlacedStop → Option (List PlacedStop)
place_all f [] ss = some ss
place_all f (i ∷ is) ss = place_stop i.delivery_stop_id (f i.sequence) ss >>= place_all f is

unfoldable pub reorder_rows :
    RouteRequest → List StopSequenceItem → RouteTables → Option (RouteResult × RouteTables)
reorder_rows q items t = do
  t₁ ← claim_key q q.idempotency_key t
  moved ← place_all negate items t₁.stops
  placed ← place_all at items moved
  write_route q manual 0 0 items (record t₁ { stops = placed })

unfoldable pub reorder_stops :
    RouteRequest → List StopSequenceItem → RouteTables → RouteAnswer × RouteTables
reorder_stops q items t = elim (check_request q t) [
  | denied e ↦ (route_failed e, t)
  | granted d ↦
      answer_request q
        (set_error (stop_ids q.delivery_id t) (map item_stop items)
          (some (map item_sequence items)))
        (reorder_rows q items) t
]
