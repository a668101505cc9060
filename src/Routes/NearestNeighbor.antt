-- ===== src/Routes/NearestNeighbor.antt =====
-- src/modules/routes/utils/nearest-neighbor-2opt.util.ts.
use be_distribution_system_a.Prelude.{
  ℕ, zero, suc, ◌-◌, Bool, true, false, ◌&&◌, ◌||◌, Option, none, some, List, [], ◌∷◌, ◌++◌, ltb,
  leb, ◌==◌, if◌then◌else◌, any, length, take, drop,
}
use mathlib.Core.List.{reverse}
use be_distribution_system_a.Routes.Tours.{
  Matrix, Problem, waypoint_id, range, tour_cost, OptimizationSolution, nearest_neighbor_2opt,
  solution_of, trivial_solution,
}

-- `visited.has(i)`: the tour's nodes are the visited ones.
abbrev pub visited : List ℕ → ℕ → Bool
visited tour i = any (λ j. j == i) tour

-- Whether node `i` beats the nearest node so far, `-1` being `none`, seen from `last`.
unfoldable pub is_nearer : Problem → ℕ → ℕ → Option ℕ → Bool
is_nearer p last i none = true
is_nearer p last i (some best) =
    let cost = p.durations last i in
    let min_cost = p.durations last best in
    let dist = p.distances last i in
    let min_dist = p.distances last best in
    ltb cost min_cost
    || cost == min_cost && ltb dist min_dist
    || cost == min_cost && dist == min_dist && ltb (waypoint_id p i) (waypoint_id p best)

-- The loop's body: the nearest node so far, after node `i`.
unfoldable pub consider : Problem → ℕ → List ℕ → ℕ → Option ℕ → Option ℕ
consider p last tour i best =
    if visited tour i then best else (if is_nearer p last i best then some i else best)

-- The `for` loop over the nodes.
unfoldable pub nearest : Problem → ℕ → List ℕ → List ℕ → Option ℕ → Option ℕ
nearest p last tour [] best = best
nearest p last tour (i ∷ rest) best = nearest p last tour rest (consider p last tour i best)

-- The `while (visited.size < n)` loop, from the last node on; `fuel` bounds its rounds.
unfoldable pub construct : ℕ → Problem → ℕ → ℕ → List ℕ → List ℕ
construct zero p n last tour = tour
construct (suc fuel) p n last tour =
    if ltb (length tour) n
    then elim (nearest p last tour (range 0 n) none) [
      | none ↦ tour
      | some i ↦ construct fuel p n i (tour ++ i ∷ [])
    ]
    else tour

-- perform2OptSwap
unfoldable pub perform_2opt_swap : ℕ → ℕ → List ℕ → List ℕ
perform_2opt_swap i j route =
    take i route ++ (reverse (drop i (take (suc j) route)) ++ drop (suc j) route)

-- The inner loop, at the indices `js`: the first candidate that is better by more than the threshold.
unfoldable pub first_swap : ℕ → Matrix → ℕ → List ℕ → List ℕ → Option (List ℕ)
first_swap threshold m i tour [] = none
first_swap threshold m i tour (j ∷ js) =
    let candidate = perform_2opt_swap i j tour in
    let rest = first_swap threshold m i tour js in
    if ltb threshold (tour_cost m tour - tour_cost m candidate) then some candidate else rest

-- The outer loop, at the indices `is`.
unfoldable pub first_improvement : ℕ → Matrix → ℕ → List ℕ → List ℕ → Option (List ℕ)
first_improvement threshold m n tour [] = none
first_improvement threshold m n tour (i ∷ is) =
    let rest = first_improvement threshold m n tour is in
    elim (first_swap threshold m i tour (range (suc i) (n - suc i))) [
      | none ↦ rest
      | some t ↦ some t
    ]

-- The `while (improved && iteration < maxIterations)` loop, with the iterations that are left.
unfoldable pub improve : ℕ → ℕ → Matrix → ℕ → ℕ → List ℕ → List ℕ
improve zero threshold m start n tour = tour
improve (suc iterations) threshold m start n tour =
    elim (first_improvement threshold m n tour (range start (n - suc start))) [
      | none ↦ tour
      | some t ↦ improve iterations threshold m start n t
    ]

abbrev pub start_index : Bool → ℕ
start_index true = 1
start_index false = 0

-- The tour that is answered for `n` waypoints, two at least.
unfoldable pub improved_tour : Problem → ℕ → ℕ → ℕ → List ℕ
improved_tour p iterations threshold n =
    improve iterations threshold p.durations (start_index p.fixed_origin) n
      (construct n p n 0 (0 ∷ []))

unfoldable pub solve_nearest_neighbor_2opt : Problem → ℕ → ℕ → OptimizationSolution
solve_nearest_neighbor_2opt p iterations threshold =
    let n = length p.waypoints in
    if leb n 1
    then trivial_solution p nearest_neighbor_2opt
    else solution_of p nearest_neighbor_2opt (improved_tour p iterations threshold n)
