-- ===== src/Routes/Reordering.antt =====
-- A manual reordering of the stops: reorderStops of src/modules/routes/services/routes-domain.service.ts.
use be_distribution_system_a.Prelude.{
  ℕ, suc, ◌<◌, ◌≡◌, refl, ◌∙◌, ap, true, false, Option, none, some, List, [], ◌∷◌, ◌++◌, length,
  map, any, All, arith, Option-cases, inl, inr,
}
use be_distribution_system_a.Prelude.Table.{find_by, find_many, IsUnique}
use be_distribution_system_a.Routes.Domain.{
  RouteSource, manual, RoutedDelivery, at, PlacedStop, RouteRow, RouteResult, RouteTables,
  RouteError, stored, placed_key, placed_delivery, granted, latest_route, version_of, stop_ids,
}
use be_distribution_system_a.Routes.Selection.{
  RouteRequest, StopSequenceItem, item_stop, item_sequence, check_request, existing_record,
  claim_key, new_route, version_taken, write_route, run_transaction, set_error, answer_request,
  route_result, save_response, set_mode, route_stop,
}
use be_distribution_system_a.Routes.Moves.{negate, place_all, reorder_rows, reorder_stops}
use be_distribution_system_a.Routes.Current.{latest_bounds}
use be_distribution_system_a.Routes.Sets.{
  distinct, distinct-set_size, exact-distinct, exact-covers, run-distinct,
}
use be_distribution_system_a.Routes.Placing.{
  is_parked, put_all, IsPlaced, All-map, negate-Separates, at-Separates, place_all-free,
  put_all-Placed, parks-put_all,
}
use be_distribution_system_a.Routes.Acceptance.{
  accepted_set, items_found, stops_covered, negated-IsFree, places-IsFree,
}

-- The next version is new.
next_version_free :
    (k : ℕ) (rs : List RouteRow) (r : RouteRow)
    → r.delivery_id ≡ k
    → version_of (latest_route k rs) < r.version
    → version_taken r rs ≡ false
next_version_free k [] r e h = refl
next_version_free k (x ∷ rs) r e h =
    let bounds = latest_bounds k x rs in ground (arith, bounds, next_version_free k rs r e)

length-map : {A B : Type 0} (f : A → B) (xs : List A) → length (map f xs) ≡ length xs
length-map f [] = refl
length-map f (x ∷ xs) = ap suc (length-map f xs)

kept_stops :
    (q : RouteRequest) (o : Option ℕ) (r : RouteResult) (t : RouteTables)
    → (save_response q o r t).stops ≡ t.stops
kept_stops q none r t = refl
kept_stops q (some k) r t = refl

written :
    (q : RouteRequest) (source : RouteSource) (items : List StopSequenceItem) (t : RouteTables)
    → distinct (map item_sequence items) ≡ true
    → distinct (map item_stop items) ≡ true
    → (r : RouteResult) × (t' : RouteTables) × (write_route q source 0 0 items t ≡ some (r, t'))
      × (t'.stops ≡ t.stops)
unfolding write_route
written q source items t a b =
    let x = new_route q source 0 0 t in
    let rows = record t {
      routes = t.routes ++ x ∷ [];
      route_stops = t.route_stops ++ map (route_stop q.route_id) items;
    } in
    (
      route_result x,
      save_response q q.idempotency_key (route_result x) (set_mode q.delivery_id source rows),
      ground (
        arith,
        next_version_free q.delivery_id t.routes x refl (omega arith),
        distinct-set_size (map item_sequence items) a,
        distinct-set_size (map item_stop items) b,
        length-map item_sequence items,
        length-map item_stop items,
      ),
      kept_stops q q.idempotency_key (route_result x) (set_mode q.delivery_id source rows),
    )

-- The stops after both loops.
abbrev reordered : List StopSequenceItem → List PlacedStop → List PlacedStop
reordered items ss = put_all at items (put_all negate items ss)

loops_succeed :
    (d : ℕ) (items : List StopSequenceItem) (ss : List PlacedStop)
    → set_error
        (map placed_key (find_many placed_delivery d ss))
        (map item_stop items)
        (some (map item_sequence items))
      ≡ none
    → IsUnique placed_key ss
    → any (λ s. is_parked s.place) ss ≡ false
    → (place_all negate items ss ≡ some (put_all negate items ss))
      × (place_all at items (put_all negate items ss) ≡ some (reordered items ss))
      × All (IsPlaced at d (reordered items ss)) items
loops_succeed d items ss e unique rest =
    let ids = map placed_key (find_many placed_delivery d ss) in
    let (known, exact, run) = accepted_set ids (map item_stop items) (map item_sequence items) e in
    let (apart, positive) = run-distinct (map item_sequence items) run in
    let own = items_found d items ss unique known in
    let stops = exact-distinct ids (map item_stop items) exact in
    let own' =
      All-map items (λ i (s, f, h, p). (s, f, h)) (put_all-Placed negate d items ss stops own) in
    let parked = parks-put_all d items ss positive (
      stops_covered d (map item_stop items) ss
        λ k. exact-covers k ids (map item_stop items) exact) in
    (
      place_all-free negate d items ss negate-Separates apart own
          (negated-IsFree d items ss positive rest),
      place_all-free at d items (put_all negate items ss) at-Separates apart own'
          (places-IsFree d items (put_all negate items ss) parked),
      put_all-Placed at d items (put_all negate items ss) stops own',
    )

claimed_key :
    (q : RouteRequest) (o : Option ℕ) (t : RouteTables)
    → existing_record q o t ≡ none
    → (t₁ : RouteTables) × (claim_key q o t ≡ some t₁) × (t₁.stops ≡ t.stops)
claimed_key q none t h = (t, refl, refl)
claimed_key q (some k) t h = elim (Option-cases (claim_key q (some k) t)) [
  | inl e ↦ absurd (ground arith)
  | inr (t₁, e) ↦ (t₁, e, ground arith)
]

-- The steps of the transaction, one after the other.
run_rows :
    (q : RouteRequest) (items : List StopSequenceItem) (t t₁ : RouteTables)
    (moved placed : List PlacedStop) (x : RouteResult × RouteTables)
    → claim_key q q.idempotency_key t ≡ some t₁
    → place_all negate items t₁.stops ≡ some moved
    → place_all at items moved ≡ some placed
    → write_route q manual 0 0 items (record t₁ { stops = placed }) ≡ some x
    → reorder_rows q items t ≡ some x
unfolding reorder_rows
run_rows q items t t₁ moved placed x a b c d = rw (a, b, c) d

rows_reordered :
    (q : RouteRequest) (items : List StopSequenceItem) (t : RouteTables)
    → existing_record q q.idempotency_key t ≡ none
    → set_error (stop_ids q.delivery_id t) (map item_stop items) (some (map item_sequence items))
      ≡ none
    → IsUnique placed_key t.stops
    → any (λ s. is_parked s.place) t.stops ≡ false
    → (r : RouteResult) × (t' : RouteTables) × (reorder_rows q items t ≡ some (r, t'))
      × (t'.stops ≡ reordered items t.stops)
unfolding reorder_rows
rows_reordered q items t fresh e unique rest =
    let (t₁, claimed, same) = claimed_key q q.idempotency_key t fresh in
    let (moved, placed, ends) = loops_succeed q.delivery_id items t.stops e unique rest in
    let (known, exact, run) =
      accepted_set (stop_ids q.delivery_id t) (map item_stop items) (map item_sequence items) e in
    let (r, t', wrote, kept) =
      written q manual items (record t₁ { stops = reordered items t.stops })
        (run-distinct (map item_sequence items) run).0
        (exact-distinct (stop_ids q.delivery_id t) (map item_stop items) exact) in
    (
      r,
      t',
      run_rows q items t t₁ (put_all negate items t.stops) (reordered items t.stops) (r, t') claimed
          (ap (place_all negate items) same ∙ moved) placed wrote,
      kept,
    )

answer-stored :
    (q : RouteRequest) (error : Option RouteError)
    (body : RouteTables → Option (RouteResult × RouteTables)) (t t' : RouteTables) (r : RouteResult)
    → existing_record q q.idempotency_key t ≡ none
    → error ≡ none
    → body t ≡ some (r, t')
    → answer_request q error body t ≡ (stored r, t')
unfolding answer_request run_transaction
answer-stored q error body t t' r fresh accepted rows = ground arith

reorder-stored :
    (q : RouteRequest) (items : List StopSequenceItem) (t t' : RouteTables) (d : RoutedDelivery)
    (r : RouteResult)
    → check_request q t ≡ granted d
    → existing_record q q.idempotency_key t ≡ none
    → set_error (stop_ids q.delivery_id t) (map item_stop items) (some (map item_sequence items))
      ≡ none
    → reorder_rows q items t ≡ some (r, t')
    → reorder_stops q items t ≡ (stored r, t')
unfolding reorder_stops
reorder-stored q items t t' d r access fresh accepted rows =
    let answer =
      answer-stored q
        (set_error (stop_ids q.delivery_id t) (map item_stop items)
          (some (map item_sequence items)))
        (reorder_rows q items) t t' r fresh accepted rows in
    ground arith

-- A reordering that is asked for is carried out: when the checks have passed, no response is stored
-- under the key, the submitted set and sequences are accepted, stop ids are unique and no stop has a
-- negative sequence, the transaction meets no unique constraint, and every stop of the delivery that
-- is named has the submitted sequence afterwards.
pub reorder_succeeds :
    (q : RouteRequest) (items : List StopSequenceItem) (t : RouteTables) (d : RoutedDelivery)
    → check_request q t ≡ granted d
    → existing_record q q.idempotency_key t ≡ none
    → set_error (stop_ids q.delivery_id t) (map item_stop items) (some (map item_sequence items))
      ≡ none
    → IsUnique placed_key t.stops
    → any (λ s. is_parked s.place) t.stops ≡ false
    → (r : RouteResult) × (t' : RouteTables) × (reorder_stops q items t ≡ (stored r, t'))
      × All (IsPlaced at q.delivery_id t'.stops) items
reorder_succeeds q items t d access fresh accepted unique rest =
    let (r, t', rows, stops) = rows_reordered q items t fresh accepted unique rest in
    let ends = (loops_succeed q.delivery_id items t.stops accepted unique rest).2 in
    (
      r,
      t',
      reorder-stored q items t t' d r access fresh accepted rows,
      All-map items
          (λ i (s, e, h, p). (s, ap (find_by placed_key i.delivery_stop_id) stops ∙ e, h, p)) ends,
    )
