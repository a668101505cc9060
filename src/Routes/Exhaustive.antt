-- ===== src/Routes/Exhaustive.antt =====
-- src/modules/routes/utils/exhaustive-permutation.util.ts, and the choice between the two solvers
-- (src/modules/routes/services/route-optimizer.service.ts).
use be_distribution_system_a.Prelude.{
  ℕ, zero, suc, ◌-◌, Bool, true, false, ◌&&◌, ◌||◌, Option, none, some, List, [], ◌∷◌, ◌++◌, map,
  ltb, leb, ◌==◌, if◌then◌else◌, length,
}
use be_distribution_system_a.Routes.Tours.{
  Problem, waypoint_id, range, tour_cost, OptimizationSolution, exhaustive_permutation, solution_of,
  trivial_solution,
}
use be_distribution_system_a.Routes.NearestNeighbor.{solve_nearest_neighbor_2opt}

-- Each element with the others: `arr[i]` and `[...arr.slice(0, i), ...arr.slice(i + 1)]`.
unfoldable pub picks : List ℕ → List (ℕ × List ℕ)
picks [] = []
picks (x ∷ xs) = (x, xs) ∷ map (λ q. (q.0, x ∷ q.1)) (picks xs)

-- The `for` loop over the elements, with the permutations of the others.
unfoldable pub permutations_each : (List ℕ → List (List ℕ)) → List (ℕ × List ℕ) → List (List ℕ)
permutations_each f [] = []
permutations_each f (q ∷ qs) = map (λ perm. q.0 ∷ perm) (f q.1) ++ permutations_each f qs

-- generatePermutations; `fuel` is the length of the list.
unfoldable pub permutations : ℕ → List ℕ → List (List ℕ)
permutations zero xs = xs ∷ []
permutations (suc fuel) xs = permutations_each (permutations fuel) (picks xs)

-- `currIds < bestIds`: ids have one length, so the joined strings are ordered as the lists of ids.
unfoldable pub ids_less : Problem → List ℕ → List ℕ → Bool
ids_less p [] [] = false
ids_less p [] (j ∷ js) = true
ids_less p (i ∷ is) [] = false
ids_less p (i ∷ is) (j ∷ js) =
    ltb (waypoint_id p i) (waypoint_id p j)
    || waypoint_id p i == waypoint_id p j && ids_less p is js

-- `isBetter`, against the best order so far; without one, its cost is infinite.
unfoldable pub is_better : Problem → List ℕ → Option (List ℕ) → Bool
is_better p order none = true
is_better p order (some best) =
    let cost = tour_cost p.durations order in
    let best_cost = tour_cost p.durations best in
    let dist = tour_cost p.distances order in
    let best_distance = tour_cost p.distances best in
    ltb cost best_cost
    || cost == best_cost && ltb dist best_distance
    || cost == best_cost && dist == best_distance && ids_less p order best

-- The loop over the orders.
unfoldable pub best_order : Problem → List (List ℕ) → Option (List ℕ) → Option (List ℕ)
best_order p [] best = best
best_order p (order ∷ orders) best =
    best_order p orders (if is_better p order best then some order else best)

-- `rawPermutations`, with the origin put in front if it is fixed
unfoldable pub candidate_orders : Bool → ℕ → List (List ℕ)
candidate_orders true n = map (λ perm. 0 ∷ perm) (permutations (n - 1) (range 1 (n - 1)))
candidate_orders false n = permutations n (range 0 n)

abbrev pub or_empty : Option (List ℕ) → List ℕ
or_empty none = []
or_empty (some order) = order

-- `bestOrder` after the loop, `[]` before it.
unfoldable pub chosen_order : Problem → ℕ → List ℕ
chosen_order p n = or_empty (best_order p (candidate_orders p.fixed_origin n) none)

unfoldable pub solve_exhaustive_permutation : Problem → OptimizationSolution
solve_exhaustive_permutation p =
    let n = length p.waypoints in
    if leb n 1
    then trivial_solution p exhaustive_permutation
    else solution_of p exhaustive_permutation (chosen_order p n)

-- The solution that `optimizeRoute` computes from the matrices, with the default iterations; on
-- whole seconds the default threshold 0.001 is passed by every improvement.
unfoldable pub optimize_route : Problem → OptimizationSolution
optimize_route p =
    if leb (length p.waypoints) 5
    then solve_exhaustive_permutation p
    else solve_nearest_neighbor_2opt p 100 0
