-- ===== src/Routes/Selection.antt =====
-- src/modules/routes/services/routes-domain.service.ts: selectRoute, and the parts of it that
-- reorderStops repeats. The broadcast and the rows' generated ids, apart from the route's, are left out.
use be_distribution_system_a.Prelude.{
  ℕ, suc, Bool, true, ◌&&◌, Option, none, some, List, [], ◌∷◌, ◌++◌, ◌==◌, ltb, if◌then◌else◌,
  length, map, all, any,
}
use be_distribution_system_a.Prelude.Table.{update_by}
use be_distribution_system_a.Deliveries.Model.{is_terminal}
use be_distribution_system_a.Deliveries.Model.{RouteMode, manual_mode, recommended_mode}
use be_distribution_system_a.Routes.Domain.{
  RouteSource, manual, RoutedDelivery, RouteRow, RouteStopRow, RouteActor, RouteResult, RouteRecord,
  RouteTables, RouteError, invalid_delivery_state, route_rate_limit_exceeded, invalid_stop_id,
  unique_constraint, RouteAnswer, stored, replayed, route_failed, routed_key, contains, set_size,
  validate_complete_stop_set, Access, granted, denied, verify_delivery_access, stop_ids,
  latest_route, version_of,
}

-- What a request knows: its delivery and actor, the endpoint with its key, the count of the rate
-- limit, the id of the new route and the time.
pub record RouteRequest : Type 0 where
  pub delivery_id : ℕ
  pub actor : RouteActor
  pub endpoint : ℕ
  pub idempotency_key : Option ℕ
  pub rate : ℕ
  pub route_id : ℕ
  pub now : ℕ

-- class SelectRouteDto, and class StopSequenceItemDto
pub record SelectRouteDto : Type 0 where
  pub source : RouteSource
  pub recommended_sequence : List ℕ
  pub total_distance_m : ℕ
  pub estimated_duration_s : ℕ

pub record StopSequenceItem : Type 0 where
  pub delivery_stop_id : ℕ
  pub sequence : ℕ

abbrev pub item_stop : StopSequenceItem → ℕ
item_stop i = i.delivery_stop_id

abbrev pub item_sequence : StopSequenceItem → ℕ
item_sequence i = i.sequence

-- The exceptions of Prisma inside a transaction are `none`.
infixl 5 ◌>>=◌
abbrev pub ◌>>=◌ {ℓ κ} : {A : Type ℓ} {B : Type κ} → Option A → (A → Option B) → Option B
◌>>=◌ none f = none
◌>>=◌ (some a) f = f a

-- The checks before a change of the route.
unfoldable pub check_request : RouteRequest → RouteTables → Access
check_request q t = elim (verify_delivery_access q.delivery_id q.actor t) [
  | denied e ↦ denied e
  | granted d ↦
      if is_terminal d.status
      then denied invalid_delivery_state
      else (if ltb 5 q.rate then denied route_rate_limit_exceeded else granted d)
]

abbrev is_record : ℕ → RouteRequest → RouteRecord → Bool
is_record key q r = r.key == key && r.user_id == q.actor.user_id && r.endpoint == q.endpoint

unfoldable pub find_record : ℕ → RouteRequest → List RouteRecord → Option RouteRecord
find_record key q [] = none
find_record key q (r ∷ rs) = if is_record key q r then some r else find_record key q rs

abbrev pub existing_record : RouteRequest → Option ℕ → RouteTables → Option RouteRecord
existing_record q none t = none
existing_record q (some key) t = find_record key q t.records

abbrev pub add_record : RouteRequest → ℕ → Option RouteRecord → RouteTables → Option RouteTables
add_record q key (some r) t = none
add_record q key none t = some (record t {
  records =
      t.records
      ++ record { key = key; user_id = q.actor.user_id; endpoint = q.endpoint; response = none }
        ∷ [];
})

abbrev pub claim_key : RouteRequest → Option ℕ → RouteTables → Option RouteTables
claim_key q none t = some t
claim_key q (some key) t = add_record q key (find_record key q t.records) t

unfoldable pub store_response : ℕ → RouteRequest → RouteResult → List RouteRecord → List RouteRecord
store_response key q result [] = []
store_response key q result (r ∷ rs) =
    (if is_record key q r then record r { response = some result } else r)
    ∷ store_response key q result rs

abbrev pub save_response : RouteRequest → Option ℕ → RouteResult → RouteTables → RouteTables
save_response q none result t = t
save_response q (some key) result t = record t { records = store_response key q result t.records }

abbrev pub new_version : RouteRequest → RouteTables → ℕ
new_version q t = suc (version_of (latest_route q.delivery_id t.routes))

abbrev pub new_route : RouteRequest → RouteSource → ℕ → ℕ → RouteTables → RouteRow
new_route q source distance duration t = record {
  id = q.route_id;
  delivery_id = q.delivery_id;
  version = new_version q t;
  source = source;
  total_distance_m = distance;
  estimated_duration_s = duration;
  selected_at = q.now;
}

-- @@unique([deliveryId, version])
abbrev pub version_taken : RouteRow → List RouteRow → Bool
version_taken r rs = any (λ x. x.delivery_id == r.delivery_id && x.version == r.version) rs

abbrev pub add_route : RouteRow → RouteTables → Option RouteTables
add_route r t =
    if version_taken r t.routes then none else some (record t { routes = t.routes ++ r ∷ [] })

-- @@unique([routeId, sequence]) and @@unique([routeId, deliveryStopId]), at the id of a new route
abbrev pub are_distinct : List StopSequenceItem → Bool
are_distinct items =
    set_size (map item_sequence items) == length items
    && set_size (map item_stop items) == length items

abbrev pub route_stop : ℕ → StopSequenceItem → RouteStopRow
route_stop r i = record {
  route_id = r;
  delivery_stop_id = i.delivery_stop_id;
  sequence = i.sequence;
}

abbrev pub add_route_stops : ℕ → List StopSequenceItem → RouteTables → Option RouteTables
add_route_stops r items t =
    if are_distinct items
    then some (record t { route_stops = t.route_stops ++ map (route_stop r) items })
    else none

-- `source === 'MANUAL' ? 'MANUAL' : 'RECOMMENDED_2OPT'`
abbrev mode_of : RouteSource → RouteMode
mode_of manual = manual_mode
mode_of _ = recommended_mode

abbrev pub with_mode : RouteSource → RoutedDelivery → RoutedDelivery
with_mode source d = record d { route_mode = mode_of source }

abbrev pub set_mode : ℕ → RouteSource → RouteTables → RouteTables
set_mode k source t = record t {
  deliveries = update_by routed_key k (λ d. true) (with_mode source) t.deliveries;
}

abbrev pub route_result : RouteRow → RouteResult
route_result r = record {
  route_id = r.id;
  delivery_id = r.delivery_id;
  version = r.version;
  source = r.source;
  selected_at = r.selected_at;
}

-- The rest of a transaction: the new version with its stops, the mode, and the stored response.
unfoldable pub write_route :
    RouteRequest
    → RouteSource
    → ℕ
    → ℕ
    → List StopSequenceItem
    → RouteTables
    → Option (RouteResult × RouteTables)
write_route q source distance duration items t = do
  let r = new_route q source distance duration t
  t₁ ← add_route r t
  t₂ ← add_route_stops q.route_id items t₁
  some (
    route_result r,
    save_response q q.idempotency_key (route_result r) (set_mode q.delivery_id source t₂),
  )

-- `recommendedSequence.map((stopId, idx) => …)`, from an index on
unfoldable pub numbered : ℕ → List ℕ → List StopSequenceItem
numbered i [] = []
numbered i (k ∷ ks) = record { delivery_stop_id = k; sequence = suc i } ∷ numbered (suc i) ks

unfoldable pub select_rows :
    RouteRequest → SelectRouteDto → RouteTables → Option (RouteResult × RouteTables)
select_rows q dto t = do
  t₁ ← claim_key q q.idempotency_key t
  write_route q dto.source dto.total_distance_m dto.estimated_duration_s
      (numbered 0 dto.recommended_sequence) t₁

-- The `catch`: a stored response is replayed, and any other exception is thrown again.
abbrev pub recover : Option RouteRecord → RouteAnswer
recover none = route_failed unique_constraint
recover (some r) = replayed r.response

-- The `try` around the transaction. All errors of the database that it may meet are one error here, as for
-- `isUniqueConstraintError`, which takes every known request error of Prisma for a unique constraint.
unfoldable pub run_transaction :
    RouteRequest
    → (RouteTables → Option (RouteResult × RouteTables))
    → RouteTables
    → RouteAnswer × RouteTables
run_transaction q body t = elim (body t) [
  | none ↦ (recover (existing_record q q.idempotency_key t), t)
  | some (result, t') ↦ (stored result, t')
]

abbrev pub set_error : List ℕ → List ℕ → Option (List ℕ) → Option RouteError
set_error expected submitted sequences =
    if all (contains expected) submitted
    then validate_complete_stop_set expected submitted sequences
    else some invalid_stop_id

-- A request once it may change the route: a stored response, an error of the set of stops, or the
-- transaction.
unfoldable pub answer_request :
    RouteRequest
    → Option RouteError
    → (RouteTables → Option (RouteResult × RouteTables))
    → RouteTables
    → RouteAnswer × RouteTables
answer_request q error body t = elim (existing_record q q.idempotency_key t) [
  | some r ↦ (replayed r.response, t)
  | none ↦ elim error [ some e ↦ (route_failed e, t) | none ↦ run_transaction q body t ]
]

unfoldable pub select_route :
    RouteRequest → SelectRouteDto → RouteTables → RouteAnswer × RouteTables
select_route q dto t = elim (check_request q t) [
  | denied e ↦ (route_failed e, t)
  | granted d ↦
      answer_request q (set_error (stop_ids q.delivery_id t) dto.recommended_sequence none)
        (select_rows q dto) t
]
