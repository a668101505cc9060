-- ===== src/Routes/Current.antt =====
-- getCurrentRoute of src/modules/routes/services/routes-domain.service.ts, after a selection. The names
-- and the coordinates of the stops are left out.
use be_distribution_system_a.Prelude.{
  ℕ, ◌≤◌, ◌<◌, ◌≡◌, refl, ◌∙◌, sym, ap, Bool, true, false, leb, if◌then◌else◌, Option, none, some,
  List, [], ◌∷◌, ◌++◌, map, arith, Option-cases, inl, inr,
}
use be_distribution_system_a.Prelude.Table.{find_by, find_many, update_by, find_by-update_by}
use be_distribution_system_a.Deliveries.Model.{RouteMode}
use be_distribution_system_a.Routes.Domain.{
  Place, at, parked, PlacedStop, placed_delivery, RouteSource, RoutedDelivery, RouteRow, RouteActor,
  RouteResult, RouteTables, RouteRecord, RouteError, stop_ids, stored, routed_key, may_access,
  granted, denied, verify_delivery_access, latest_route, version_of,
}
use be_distribution_system_a.Routes.Selection.{
  RouteRequest, SelectRouteDto, StopSequenceItem, check_request, claim_key, existing_record,
  new_route, route_stop, route_result, with_mode, write_route, numbered, select_rows,
  run_transaction, set_error, answer_request, select_route, find_record, save_response, set_mode,
  recover,
}
use be_distribution_system_a.Routes.RouteStops.{route_of, item_of, sort_rows, written_stops}

-- `stops: { orderBy: { sequence: 'asc' } }` on a delivery
abbrev place_before : Place → Place → Bool
place_before (at m) (at n) = leb m n
place_before (at m) (parked n) = false
place_before (parked m) (at n) = true
place_before (parked m) (parked n) = leb n m

unfoldable pub insert_stop : PlacedStop → List PlacedStop → List PlacedStop
insert_stop s [] = s ∷ []
insert_stop s (x ∷ xs) =
    let rest = insert_stop s xs in if place_before s.place x.place then s ∷ x ∷ xs else x ∷ rest

unfoldable pub sort_stops : List PlacedStop → List PlacedStop
sort_stops [] = []
sort_stops (s ∷ ss) = insert_stop s (sort_stops ss)

-- The answer: the latest version with its stops in order, or the stops of the delivery, when there is
-- no version yet.
pub data CurrentRoute : Type 0 where
  current : RouteRow → List StopSequenceItem → CurrentRoute
  no_route_yet : RouteMode → List PlacedStop → CurrentRoute
  not_shown : RouteError → CurrentRoute

unfoldable pub get_current_route : ℕ → RouteActor → RouteTables → CurrentRoute
get_current_route k a t = elim (verify_delivery_access k a t) [
  | denied e ↦ not_shown e
  | granted d ↦ elim (latest_route k t.routes) [
    | none ↦ no_route_yet d.route_mode (sort_stops (find_many placed_delivery k t.stops))
    | some r ↦ current r (map item_of (sort_rows (find_many route_of r.id t.route_stops)))
  ]
]

-- No route of a delivery has a higher version than the latest.
pub latest_bounds :
    (k : ℕ) (x : RouteRow) (rs : List RouteRow)
    → (version_of (latest_route k rs) ≤ version_of (latest_route k (x ∷ rs)))
      × (x.delivery_id ≡ k → x.version ≤ version_of (latest_route k (x ∷ rs)))
unfolding latest_route
latest_bounds k x rs = elim (Option-cases (latest_route k rs)) [
  | inl n ↦ (ground arith, λ e. ground arith)
  | inr (s, e) ↦ (ground arith, λ d. ground arith)
]

-- The route with the highest version is the latest one.
latest_route-append :
    (k : ℕ) (rs : List RouteRow) (r : RouteRow)
    → r.delivery_id ≡ k
    → version_of (latest_route k rs) < r.version
    → latest_route k (rs ++ r ∷ []) ≡ some r
unfolding latest_route
latest_route-append k [] r e h = ground arith
latest_route-append k (x ∷ rs) r e h =
    let (both, rest) = latest_bounds k x rs in ground (arith, both, latest_route-append k rs r e)

save_response_keeps :
    (q : RouteRequest) (o : Option ℕ) (r : RouteResult) (t : RouteTables)
    → ((save_response q o r t).routes ≡ t.routes)
      × ((save_response q o r t).route_stops ≡ t.route_stops)
      × ((save_response q o r t).deliveries ≡ t.deliveries)
save_response_keeps q none r t = (refl, refl, refl)
save_response_keeps q (some k) r t = (refl, refl, refl)

-- What a transaction writes.
write_route_writes :
    (q : RouteRequest) (source : RouteSource) (distance duration : ℕ)
    (items : List StopSequenceItem) (t t' : RouteTables) (r : RouteResult)
    → write_route q source distance duration items t ≡ some (r, t')
    → (t'.routes ≡ t.routes ++ new_route q source distance duration t ∷ [])
      × (t'.route_stops ≡ t.route_stops ++ map (route_stop q.route_id) items)
      × (t'.deliveries
          ≡ update_by routed_key q.delivery_id (λ d. true) (with_mode source) t.deliveries)
      × (r ≡ route_result (new_route q source distance duration t))
unfolding write_route
write_route_writes q source distance duration items t t' r h =
    let n = new_route q source distance duration t in
    let rows = record t {
      routes = t.routes ++ n ∷ [];
      route_stops = t.route_stops ++ map (route_stop q.route_id) items;
    } in
    let keeps =
      save_response_keeps q q.idempotency_key (route_result n)
        (set_mode q.delivery_id source rows) in
    ground (arith, keeps)

claim_key_keeps :
    (q : RouteRequest) (o : Option ℕ) (t t' : RouteTables)
    → claim_key q o t ≡ some t'
    → (t'.routes ≡ t.routes) × (t'.route_stops ≡ t.route_stops) × (t'.deliveries ≡ t.deliveries)
claim_key_keeps q none t t' h = ground arith
claim_key_keeps q (some k) t t' h = elim (Option-cases (find_record k q t.records)) [
  | inl e ↦ ground arith
  | inr (r, e) ↦ absurd (ground arith)
]

recover-stored : (o : Option RouteRecord) (r : RouteResult) → recover o ≡ stored r → ⊥
recover-stored none r h = cc
recover-stored (some x) r h = cc

run_transaction-stored :
    (q : RouteRequest) (body : RouteTables → Option (RouteResult × RouteTables))
    (t t' : RouteTables) (r : RouteResult)
    → run_transaction q body t ≡ (stored r, t')
    → body t ≡ some (r, t')
unfolding run_transaction
run_transaction-stored q body t t' r h = elim (Option-cases (body t)) [
  | inl e ↦ absurd (recover-stored (existing_record q q.idempotency_key t) r (ground arith))
  | inr ((x, u), e) ↦ ground arith
]

-- A change of a route that is stored has run its transaction.
answered-stored :
    (q : RouteRequest) (error : Option RouteError)
    (body : RouteTables → Option (RouteResult × RouteTables)) (t t' : RouteTables) (r : RouteResult)
    → answer_request q error body t ≡ (stored r, t')
    → body t ≡ some (r, t')
unfolding answer_request
answered-stored q error body t t' r h =
    elim (Option-cases (existing_record q q.idempotency_key t)) [
      | inr (x, e) ↦ absurd (ground arith)
      | inl e ↦ elim (Option-cases error) [
        | inr (x, f) ↦ absurd (ground arith)
        | inl f ↦ run_transaction-stored q body t t' r (ground arith)
      ]
    ]

pub select-stored :
    (q : RouteRequest) (dto : SelectRouteDto) (t t' : RouteTables) (r : RouteResult)
    → select_route q dto t ≡ (stored r, t')
    → (d : RoutedDelivery) × (find_by routed_key q.delivery_id t.deliveries ≡ some d)
      × (may_access q.actor d ≡ true)
      × (select_rows q dto t ≡ some (r, t'))
unfolding select_route check_request verify_delivery_access
select-stored q dto t t' r h = elim (Option-cases (find_by routed_key q.delivery_id t.deliveries)) [
  | inl e ↦ absurd (ground arith)
  | inr (d, e) ↦ (
    d,
    e,
    ground arith,
    answered-stored q (set_error (stop_ids q.delivery_id t) dto.recommended_sequence none)
        (select_rows q dto) t t' r (ground arith),
  )
]

select_rows-stored :
    (q : RouteRequest) (dto : SelectRouteDto) (t t' : RouteTables) (r : RouteResult)
    → select_rows q dto t ≡ some (r, t')
    → (t₁ : RouteTables) × (claim_key q q.idempotency_key t ≡ some t₁)
      × (write_route q dto.source dto.total_distance_m dto.estimated_duration_s
            (numbered 0 dto.recommended_sequence)
            t₁
          ≡ some (r, t'))
unfolding select_rows
select_rows-stored q dto t t' r h = elim (Option-cases (claim_key q q.idempotency_key t)) [
  | inl e ↦ absurd (ground arith)
  | inr (t₁, e) ↦ (t₁, e, ground arith)
]

shown-route :
    (k : ℕ) (a : RouteActor) (t : RouteTables) (d : RoutedDelivery) (x : RouteRow)
    → find_by routed_key k t.deliveries ≡ some d
    → may_access a d ≡ true
    → latest_route k t.routes ≡ some x
    → get_current_route k a t
      ≡ current x (map item_of (sort_rows (find_many route_of x.id t.route_stops)))
unfolding get_current_route verify_delivery_access
shown-route k a t d x found may latest = ground arith

-- A route that has been selected is the current one: if a selection under a new id is stored, then the
-- same actor is shown its row and, in order, the stops of the submitted sequence, and its version is
-- higher than that of the route before.
pub select_then_current :
    (q : RouteRequest) (dto : SelectRouteDto) (t t' : RouteTables) (r : RouteResult)
    → find_many route_of q.route_id t.route_stops ≡ []
    → select_route q dto t ≡ (stored r, t')
    → (x : RouteRow) × (route_result x ≡ r)
      × (get_current_route q.delivery_id q.actor t'
          ≡ current x (numbered 0 dto.recommended_sequence))
      × (version_of (latest_route q.delivery_id t.routes) < r.version)
unfolding may_access
select_then_current q dto t t' r fresh h =
    let (d, found, may, rows) = select-stored q dto t t' r h in
    let (t₁, claimed, wrote) = select_rows-stored q dto t t' r rows in
    let (routes, stops, deliveries) = claim_key_keeps q q.idempotency_key t t₁ claimed in
    let (routes', stops', deliveries', result) =
      write_route_writes q dto.source dto.total_distance_m dto.estimated_duration_s
        (numbered 0 dto.recommended_sequence) t₁ t' r wrote in
    let x = new_route q dto.source dto.total_distance_m dto.estimated_duration_s t₁ in
    let latest =
      ap (latest_route q.delivery_id) routes'
      ∙ latest_route-append q.delivery_id t₁.routes x refl (omega arith) in
    let row : find_by routed_key q.delivery_id t'.deliveries ≡ some (with_mode dto.source d) =
      ap (find_by routed_key q.delivery_id) deliveries'
      ∙ find_by-update_by routed_key q.delivery_id q.delivery_id (λ d. true) (with_mode dto.source)
          t₁.deliveries (λ d. refl)
      ∙ ground (arith, ap (find_by routed_key q.delivery_id) deliveries ∙ found) in
    (
      x,
      sym result,
      shown-route q.delivery_id q.actor t' (with_mode dto.source d) x row may latest
          ∙ ap (λ s. current x (map item_of (sort_rows (find_many route_of q.route_id s))))
              (stops'
                ∙ ap (λ s. s ++ map (route_stop q.route_id) (numbered 0 dto.recommended_sequence))
                    stops)
          ∙ ap (current x) (written_stops q.route_id dto.recommended_sequence t.route_stops fresh),
      omega (
        arith,
        ap (λ y. y.version) result,
        ap (λ y. version_of (latest_route q.delivery_id y)) routes,
      ),
    )
