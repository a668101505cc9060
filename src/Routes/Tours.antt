-- ===== src/Routes/Tours.antt =====
-- Tours as lists of indices of waypoints, their cost, and what both solvers answer. Distances and
-- durations are whole meters and seconds, so the rounding of the totals changes nothing; a matrix
-- is read at indices of waypoints only, so it is a function of two indices.
use be_distribution_system_a.Prelude.{ℕ, zero, suc, ◌+◌, Bool, List, [], ◌∷◌, map, get_or}

abbrev pub Matrix : Type 0
Matrix = ℕ → ℕ → ℕ

-- The ids of the waypoints; the coordinates are read by the routing provider only. `<` on ids is
-- the order of the numbers that stand for them.
pub record Problem : Type 0 where
  pub waypoints : List ℕ
  pub distances : Matrix
  pub durations : Matrix
  pub fixed_origin : Bool

-- `waypoints[i].id`
abbrev pub waypoint_id : Problem → ℕ → ℕ
waypoint_id p i = get_or p.waypoints i 0

-- a, a + 1, …, with `k` elements
unfoldable pub range : ℕ → ℕ → List ℕ
range a zero = []
range a (suc k) = a ∷ range (suc a) k

-- computeTourCost and computeTourDistance
unfoldable pub tour_cost : Matrix → List ℕ → ℕ
tour_cost m [] = 0
tour_cost m (a ∷ []) = 0
tour_cost m (a ∷ b ∷ rest) = m a b + tour_cost m (b ∷ rest)

pub data Algorithm : Type 0 where
  exhaustive_permutation nearest_neighbor_2opt : Algorithm

-- interface OptimizationSolution
pub record OptimizationSolution : Type 0 where
  pub ordered_waypoints : List ℕ
  pub total_distance_m : ℕ
  pub estimated_duration_s : ℕ
  pub algorithm : Algorithm
  pub sequence_map : List (ℕ × ℕ)

-- `waypoints.map((w, idx) => ({ sequence: idx + 1, deliveryStopId: w.id }))`, from `i` on
unfoldable pub sequence_from : ℕ → List ℕ → List (ℕ × ℕ)
sequence_from i [] = []
sequence_from i (w ∷ ws) = (suc i, w) ∷ sequence_from (suc i) ws

unfoldable pub solution_of : Problem → Algorithm → List ℕ → OptimizationSolution
solution_of p algorithm tour =
    let ordered = map (waypoint_id p) tour in
    record {
      ordered_waypoints = ordered;
      total_distance_m = tour_cost p.distances tour;
      estimated_duration_s = tour_cost p.durations tour;
      algorithm = algorithm;
      sequence_map = sequence_from 0 ordered;
    }

-- The answer for at most one waypoint.
unfoldable pub trivial_solution : Problem → Algorithm → OptimizationSolution
trivial_solution p algorithm = record {
  ordered_waypoints = p.waypoints;
  total_distance_m = 0;
  estimated_duration_s = 0;
  algorithm = algorithm;
  sequence_map = sequence_from 0 p.waypoints;
}
