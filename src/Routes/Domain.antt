-- ===== src/Routes/Domain.antt =====
-- src/modules/routes/services/routes-domain.service.ts: the checks, the selection and the reordering of
-- routes. Ids of new routes, the time and the count of the rate limit are arguments; a transaction holds
-- the lock of `lockRouteMutation`, so its writes are not interleaved with those of another.
use be_distribution_system_a.Prelude.{
  ℕ, suc, ◌+◌, Bool, true, not, ◌&&◌, Option, none, some, List, [], ◌∷◌, ◌==◌, ltb, leb,
  if◌then◌else◌, length, map, all, any, both_same,
}
use be_distribution_system_a.Prelude.Table.{find_by, find_many}
use be_distribution_system_a.Deliveries.Model.{Role, RouteMode, DeliveryStatus, is_driver, is_owner}

-- enum RouteSource
pub data RouteSource : Type 0 where
  manual recommended_2opt external_osrm : RouteSource

-- The columns of a delivery that the service reads and writes.
pub record RoutedDelivery : Type 0 where
  pub id : ℕ
  pub driver_id : Option ℕ
  pub created_by : ℕ
  pub status : DeliveryStatus
  pub route_mode : RouteMode

-- A sequence number: `at n`, or `-(n + 1)` while a reordering is under way.
pub data Place : Type 0 where
  at parked : ℕ → Place

-- The columns of a stop that the service reads and writes.
pub record PlacedStop : Type 0 where
  pub id : ℕ
  pub delivery_id : ℕ
  pub place : Place

-- model Route
pub record RouteRow : Type 0 where
  pub id : ℕ
  pub delivery_id : ℕ
  pub version : ℕ
  pub source : RouteSource
  pub total_distance_m : ℕ
  pub estimated_duration_s : ℕ
  pub selected_at : ℕ

-- model RouteStop
pub record RouteStopRow : Type 0 where
  pub route_id : ℕ
  pub delivery_stop_id : ℕ
  pub sequence : ℕ

-- interface RouteActor
pub record RouteActor : Type 0 where
  pub user_id : ℕ
  pub role : Role
  pub driver_id : Option ℕ

-- The answer of `selectRoute` and of `reorderStops`.
pub record RouteResult : Type 0 where
  pub route_id : ℕ
  pub delivery_id : ℕ
  pub version : ℕ
  pub source : RouteSource
  pub selected_at : ℕ

-- An idempotency record; its response is missing while `{ pending: true }` is stored.
pub record RouteRecord : Type 0 where
  pub key : ℕ
  pub user_id : ℕ
  pub endpoint : ℕ
  pub response : Option RouteResult

pub record RouteTables : Type 0 where
  pub deliveries : List RoutedDelivery
  pub stops : List PlacedStop
  pub routes : List RouteRow
  pub route_stops : List RouteStopRow
  pub records : List RouteRecord

pub data RouteError : Type 0 where
  delivery_not_found resource_forbidden invalid_delivery_state : RouteError
  route_rate_limit_exceeded invalid_stop_id invalid_stop_set invalid_stop_sequence : RouteError
  unique_constraint : RouteError

pub data RouteAnswer : Type 0 where
  stored : RouteResult → RouteAnswer
  replayed : Option RouteResult → RouteAnswer
  route_failed : RouteError → RouteAnswer

abbrev pub routed_key : RoutedDelivery → ℕ
routed_key d = d.id

abbrev pub placed_key : PlacedStop → ℕ
placed_key s = s.id

abbrev pub placed_delivery : PlacedStop → ℕ
placed_delivery s = s.delivery_id

abbrev pub contains : List ℕ → ℕ → Bool
contains ks k = any (λ x. x == k) ks

-- The size of a Set of the values.
unfoldable pub set_size : List ℕ → ℕ
set_size [] = 0
set_size (k ∷ ks) = (if contains ks k then 0 else 1) + set_size ks

unfoldable pub has_exact_ids : List ℕ → List ℕ → Bool
has_exact_ids expected submitted =
    ltb 0 (set_size expected)
    && length submitted == set_size expected
    && set_size submitted == set_size expected
    && all (contains expected) submitted

unfoldable pub insert_number : ℕ → List ℕ → List ℕ
insert_number k [] = k ∷ []
insert_number k (x ∷ xs) = let rest = insert_number k xs in if leb k x then k ∷ x ∷ xs else x ∷ rest

unfoldable pub sort_numbers : List ℕ → List ℕ
sort_numbers [] = []
sort_numbers (k ∷ ks) = insert_number k (sort_numbers ks)

-- `every((sequence, index) => sequence === index + 1)`, from an index on
unfoldable pub is_run_from : ℕ → List ℕ → Bool
is_run_from i [] = true
is_run_from i (k ∷ ks) = k == suc i && is_run_from (suc i) ks

-- validateCompleteStopSet
unfoldable pub validate_complete_stop_set : List ℕ → List ℕ → Option (List ℕ) → Option RouteError
validate_complete_stop_set expected submitted none =
    if has_exact_ids expected submitted then none else some invalid_stop_set
validate_complete_stop_set expected submitted (some sequences) =
    if has_exact_ids expected submitted
    then (if is_run_from 0 (sort_numbers sequences) then none else some invalid_stop_sequence)
    else some invalid_stop_set

-- The role rules of `verifyDeliveryAccess`.
unfoldable pub may_access : RouteActor → RoutedDelivery → Bool
may_access a d =
    not (is_driver a.role && not (both_same a.driver_id d.driver_id))
    && not (is_owner a.role && not (d.created_by == a.user_id))

pub data Access : Type 0 where
  granted : RoutedDelivery → Access
  denied : RouteError → Access

unfoldable pub verify_delivery_access : ℕ → RouteActor → RouteTables → Access
verify_delivery_access k a t = elim (find_by routed_key k t.deliveries) [
  | none ↦ denied delivery_not_found
  | some d ↦ if may_access a d then granted d else denied resource_forbidden
]

abbrev pub stop_ids : ℕ → RouteTables → List ℕ
stop_ids k t = map placed_key (find_many placed_delivery k t.stops)

-- `findFirst({ where: { deliveryId }, orderBy: { version: 'desc' } })`
abbrev later_route : RouteRow → Option RouteRow → Option RouteRow
later_route r none = some r
later_route r (some s) = if ltb r.version s.version then some s else some r

unfoldable pub latest_route : ℕ → List RouteRow → Option RouteRow
latest_route k [] = none
latest_route k (r ∷ rs) =
    let rest = latest_route k rs in if r.delivery_id == k then later_route r rest else rest

-- `maxRoute?.version || 0`
abbrev pub version_of : Option RouteRow → ℕ
version_of none = 0
version_of (some r) = r.version
