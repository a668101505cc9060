-- ===== src/Routes/Scenarios.antt =====
-- Runs of the solvers on three waypoints, where the nearest neighbour leads astray.
use be_distribution_system_a.Prelude.{
  ◌≡◌, ◌<◌, refl, true, none, some, List, [], ◌∷◌, All, arith, ◌==◌, if◌then◌else◌,
}
use be_distribution_system_a.Prelude.Table.{find_by, find_many, IsUnique}
use be_distribution_system_a.Deliveries.Model.{admin, accepted}
use be_distribution_system_a.Deliveries.Model.{recommended_mode}
use be_distribution_system_a.Routes.Domain.{
  recommended_2opt, RoutedDelivery, at, RouteRow, RouteResult, RouteTables, stored, placed_key,
  may_access, verify_delivery_access, validate_complete_stop_set, has_exact_ids, set_size,
  is_run_from, sort_numbers, insert_number, latest_route, version_of,
}
use be_distribution_system_a.Routes.Selection.{
  RouteRequest, SelectRouteDto, StopSequenceItem, check_request, answer_request, run_transaction,
  select_rows, select_route, write_route, numbered, route_result, find_record,
}
use be_distribution_system_a.Routes.Moves.{reorder_stops}
use be_distribution_system_a.Routes.Current.{get_current_route, current, select_then_current}
use be_distribution_system_a.Routes.Placing.{IsPlaced}
use be_distribution_system_a.Routes.Reordering.{reorder_succeeds}
use be_distribution_system_a.Routes.Tours.{Matrix, Problem, range, tour_cost}
use be_distribution_system_a.Routes.NearestNeighbor.{
  construct, nearest, consider, is_nearer, improve, first_improvement, first_swap,
  perform_2opt_swap, improved_tour,
}
use be_distribution_system_a.Routes.Exhaustive.{
  chosen_order, best_order, is_better, candidate_orders, permutations, permutations_each, picks,
}
use be_distribution_system_a.Routes.Visits.{visits, IsTour}
use be_distribution_system_a.Routes.Improvement.{Searched, improve-Searched}
use be_distribution_system_a.Routes.Construction.{improved_tour-IsTour}
use be_distribution_system_a.Routes.Optimum.{
  StartsAt, NoWorse, chosen_order-IsTour, chosen_order_optimal,
}

-- From 0 it is nearer to 1, but the way through 2 first is shorter.
abbrev times : Matrix
times i j = if i == 0 then (if j == 1 then 1 else 2) else (if i == 1 then 50 else 3)

abbrev problem : Problem
problem = record {
  waypoints = 10 ∷ 11 ∷ 12 ∷ [];
  distances = times;
  durations = times;
  fixed_origin = true;
}

improved_tour-run : improved_tour problem 100 0 3 ≡ 0 ∷ 2 ∷ 1 ∷ []
unfolding improved_tour construct nearest consider is_nearer improve first_improvement first_swap
    perform_2opt_swap range tour_cost
improved_tour-run = refl

chosen_order-run : chosen_order problem 3 ≡ 0 ∷ 2 ∷ 1 ∷ []
unfolding chosen_order best_order is_better candidate_orders permutations permutations_each picks
    range tour_cost
chosen_order-run = refl

improve-Searched_example :
    Searched 0 times 1 3 100 (0 ∷ 1 ∷ 2 ∷ []) (improve 100 0 times 1 3 (0 ∷ 1 ∷ 2 ∷ []))
improve-Searched_example = improve-Searched 0 100 times 1 3 (0 ∷ 1 ∷ 2 ∷ [])

improved_tour-IsTour_example : IsTour 3 (improved_tour problem 100 0 3)
improved_tour-IsTour_example = improved_tour-IsTour problem 100 0 3 (ground arith)

chosen_order-IsTour_example :
    IsTour 3 (chosen_order problem 3) × StartsAt true (chosen_order problem 3)
chosen_order-IsTour_example = chosen_order-IsTour problem 3 (ground arith)

chosen_order_optimal_example : NoWorse problem (chosen_order problem 3) (0 ∷ 1 ∷ 2 ∷ [])
unfolding visits
chosen_order_optimal_example =
    chosen_order_optimal problem 3 (0 ∷ 1 ∷ 2 ∷ []) (ground arith) (λ k. ground arith)
      (1 ∷ 2 ∷ [], refl)

-- A delivery of two stops, whose order is turned round.
abbrev trip : RoutedDelivery
trip = record {
  id = 1;
  driver_id = some 3;
  created_by = 7;
  status = accepted;
  route_mode = recommended_mode;
}

abbrev route_tables : RouteTables
route_tables = record {
  deliveries = trip ∷ [];
  stops =
      record { id = 11; delivery_id = 1; place = at 1 }
      ∷ record { id = 12; delivery_id = 1; place = at 2 }
      ∷ [];
  routes = [];
  route_stops = [];
  records = [];
}

abbrev change : RouteRequest
change = record {
  delivery_id = 1;
  actor = record { user_id = 7; role = admin; driver_id = none };
  endpoint = 1;
  idempotency_key = some 5;
  rate = 1;
  route_id = 100;
  now = 900;
}

abbrev choice : SelectRouteDto
choice = record {
  source = recommended_2opt;
  recommended_sequence = 12 ∷ 11 ∷ [];
  total_distance_m = 40;
  estimated_duration_s = 60;
}

abbrev first_version : RouteResult
first_version = record {
  route_id = 100;
  delivery_id = 1;
  version = 1;
  source = recommended_2opt;
  selected_at = 900;
}

select_then_current_example :
    let t' = (select_route change choice route_tables).1 in
    (x : RouteRow) × (route_result x ≡ first_version)
    × (get_current_route 1 change.actor t' ≡ current x (numbered 0 (12 ∷ 11 ∷ [])))
    × (version_of (latest_route 1 route_tables.routes) < 1)
unfolding select_route check_request verify_delivery_access may_access find_by find_many
    answer_request validate_complete_stop_set has_exact_ids set_size run_transaction select_rows
    write_route numbered latest_route find_record
select_then_current_example =
    select_then_current change choice route_tables (select_route change choice route_tables).1
      first_version refl refl

abbrev turned : List StopSequenceItem
turned =
    record { delivery_stop_id = 11; sequence = 2 }
    ∷ record { delivery_stop_id = 12; sequence = 1 }
    ∷ []

placed-IsUnique : IsUnique placed_key route_tables.stops
unfolding find_by
placed-IsUnique = (refl, (refl, tt))

reorder_succeeds_example :
    (r : RouteResult) × (t' : RouteTables) × (reorder_stops change turned route_tables
      ≡ (stored r, t'))
    × All (IsPlaced at 1 t'.stops) turned
unfolding check_request verify_delivery_access may_access find_by find_many
    validate_complete_stop_set has_exact_ids set_size is_run_from sort_numbers insert_number
    find_record
reorder_succeeds_example =
    reorder_succeeds change turned route_tables trip refl refl refl placed-IsUnique refl
