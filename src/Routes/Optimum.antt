-- ===== src/Routes/Optimum.antt =====
-- The exhaustive search against the admissible orders.
use be_distribution_system_a.Prelude.{
  ℕ, zero, suc, ◌-◌, ◌≤◌, ◌<◌, ◌≡◌, refl, sym, ap, ◌∙◌, Bool, true, false, none, some, List, [],
  ◌∷◌, All, if◌then◌else◌, arith, length, inl, inr, ◌⊎◌,
}
use mathlib.Core.Path.{subst}
use be_distribution_system_a.Routes.Tours.{Problem, range, tour_cost}
use be_distribution_system_a.Routes.Exhaustive.{
  is_better, best_order, permutations, candidate_orders, chosen_order, or_empty,
}
use be_distribution_system_a.Routes.Visits.{visits, visits-range, IsTour}
use be_distribution_system_a.Routes.Permutations.{
  All-map, All-unmap, All-mono, SameVisits, permutations_sound, permutations_complete,
}

-- The order `a` takes less time than `b`, or as much and no longer way.
abbrev pub NoWorse : Problem → List ℕ → List ℕ → Type 0
NoWorse p a b =
    (tour_cost p.durations a < tour_cost p.durations b)
    ⊎ ((tour_cost p.durations a ≡ tour_cost p.durations b)
        × (tour_cost p.distances a ≤ tour_cost p.distances b))

NoWorse-trans : (p : Problem) (a b c : List ℕ) → NoWorse p a b → NoWorse p b c → NoWorse p a c
NoWorse-trans p a b c (inl h) (inl g) = inl (omega arith)
NoWorse-trans p a b c (inl h) (inr (g, l)) = inl (omega arith)
NoWorse-trans p a b c (inr (h, l)) (inl g) = inl (omega arith)
NoWorse-trans p a b c (inr (h, l)) (inr (g, k)) = inr (omega arith, omega arith)

better-NoWorse :
    (p : Problem) (a b : List ℕ)
    → NoWorse p (if is_better p a (some b) then a else b) b
      × NoWorse p (if is_better p a (some b) then a else b) a
unfolding is_better
better-NoWorse p a b = ground arith

-- The start that the option demands.
abbrev pub StartsAt : Bool → List ℕ → Type 0
StartsAt true tour = (rest : List ℕ) × (tour ≡ 0 ∷ rest)
StartsAt false tour = Unit

best_lem :
    (p : Problem) (P : List ℕ → Type 0) (orders : List (List ℕ)) (b : List ℕ)
    → P b
    → All P orders
    → (r : List ℕ) × (best_order p orders (some b) ≡ some r)
      × P r
      × NoWorse p r b
      × All (NoWorse p r) orders
unfolding best_order
best_lem p P [] b h g = (b, refl, h, inr (refl, omega arith), tt)
best_lem p P (o ∷ orders) b h g =
    let c = if is_better p o (some b) then o else b in
    let (r, e, q, below, all) = best_lem p P orders c (either (is_better p o (some b))) g.1 in
    let (cb, co) = better-NoWorse p o b in
    (
      r,
      ap (best_order p orders) (choice (is_better p o (some b))) ∙ e,
      q,
      NoWorse-trans p r c b below cb,
      (NoWorse-trans p r c o below co, all),
    )
  where
    either : (t : Bool) → P (if t then o else b)
    either true = g.0
    either false = h

    choice : (t : Bool) → (if t then some o else some b) ≡ some (if t then o else b)
    choice true = refl
    choice false = refl

candidates_sound :
    (fixed : Bool) (n : ℕ)
    → 1 ≤ n
    → All (λ t. IsTour n t × StartsAt fixed t) (candidate_orders fixed n)
unfolding candidate_orders visits
candidates_sound true n h =
    All-map (λ t. IsTour n t × StartsAt true t) (λ l. 0 ∷ l)
      (permutations (n - 1) (range 1 (n - 1)))
      (All-mono (λ l. SameVisits l (range 1 (n - 1)))
        (λ l. IsTour n (0 ∷ l) × StartsAt true (0 ∷ l)) (permutations (n - 1) (range 1 (n - 1)))
        (λ l same. ((λ k. ground (arith, same k, visits-range k 1 (n - 1))), (l, refl)))
        (permutations_sound (n - 1) (range 1 (n - 1))))
candidates_sound false n h =
    All-mono (λ l. SameVisits l (range 0 n)) (λ t. IsTour n t × StartsAt false t)
      (permutations n (range 0 n))
      (λ l same. ((λ k. ground (arith, same k, visits-range k 0 n)), tt))
      (permutations_sound n (range 0 n))

length-range : (a n : ℕ) → length (range a n) ≡ n
unfolding range
length-range a zero = refl
length-range a (suc n) = ap suc (length-range (suc a) n)

candidates_complete :
    (fixed : Bool) (n : ℕ) (P : List ℕ → Type 0) (t : List ℕ)
    → 1 ≤ n
    → All P (candidate_orders fixed n)
    → IsTour n t
    → StartsAt fixed t
    → P t
unfolding candidate_orders visits
candidates_complete true n P t h all tour (rest, e) = subst P (sym e) (
    permutations_complete (n - 1) (range 1 (n - 1)) rest (λ l. P (0 ∷ l)) (length-range 1 (n - 1))
      (All-unmap P (λ l. 0 ∷ l) (permutations (n - 1) (range 1 (n - 1))) all)
      (λ k. ground (arith, tour k, ap (visits k) e, visits-range k 1 (n - 1))))
candidates_complete false n P t h all tour start =
    permutations_complete n (range 0 n) t P (length-range 0 n) all
      (λ k. ground (arith, tour k, visits-range k 0 n))

-- The order that is chosen is admissible, and no admissible order beats it.
record IsOptimal (p : Problem) (n : ℕ) (best : List ℕ) : Type 0 where
  visits_all : IsTour n best
  starts : StartsAt p.fixed_origin best
  optimal : (t : List ℕ) → IsTour n t → StartsAt p.fixed_origin t → NoWorse p best t

some-IsTour : (fixed : Bool) (n : ℕ) → 1 ≤ n → (t : List ℕ) × IsTour n t × StartsAt fixed t
unfolding visits
some-IsTour true n h =
    (0 ∷ range 1 (n - 1), (λ k. ground (arith, visits-range k 1 (n - 1))), (range 1 (n - 1), refl))
some-IsTour false n h = (range 0 n, (λ k. ground (arith, visits-range k 0 n)), tt)

chosen_from :
    (p : Problem) (n : ℕ) (orders : List (List ℕ))
    → candidate_orders p.fixed_origin n ≡ orders
    → 1 ≤ n
    → IsOptimal p n (chosen_order p n)
unfolding chosen_order best_order is_better
chosen_from p n [] e h =
    let (t, tour, start) = some-IsTour p.fixed_origin n h in
    absurd (
      candidates_complete p.fixed_origin n (λ t. ⊥) t h (subst (All (λ t. ⊥)) (sym e) tt) tour
        start)
chosen_from p n (o ∷ orders) e h =
    let sound =
      subst (All (λ t. IsTour n t × StartsAt p.fixed_origin t)) e
        (candidates_sound p.fixed_origin n h) in
    let (r, found, (good, start), below, all) =
      best_lem p (λ t. IsTour n t × StartsAt p.fixed_origin t) orders o sound.0 sound.1 in
    let answered : chosen_order p n ≡ r =
      ap (λ os. or_empty (best_order p os none)) e ∙ ap or_empty found in
    subst (IsOptimal p n) (sym answered) record {
      visits_all = good;
      starts = start;
      optimal = λ t tour st.
          candidates_complete p.fixed_origin n (NoWorse p r) t h
            (subst (All (NoWorse p r)) (sym e) (below, all)) tour st;
    }

-- For at least one waypoint: the chosen order visits every waypoint exactly once, and starts at the
-- origin if that is fixed.
pub chosen_order-IsTour :
    (p : Problem) (n : ℕ)
    → 1 ≤ n
    → IsTour n (chosen_order p n) × StartsAt p.fixed_origin (chosen_order p n)
chosen_order-IsTour p n h = let best = chosen_from p n _ refl h in (best.visits_all, best.starts)

-- For at least one waypoint: every order that visits every waypoint exactly once, and starts at the
-- origin if that is fixed, takes more time than the chosen one, or as much time and at least as
-- long a way.
pub chosen_order_optimal :
    (p : Problem) (n : ℕ) (t : List ℕ)
    → 1 ≤ n
    → IsTour n t
    → StartsAt p.fixed_origin t
    → NoWorse p (chosen_order p n) t
chosen_order_optimal p n t h tour start = (chosen_from p n _ refl h).optimal t tour start
