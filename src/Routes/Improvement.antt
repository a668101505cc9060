-- ===== src/Routes/Improvement.antt =====
-- Rearrangements of a tour, and how the 2-opt search may end.
use be_distribution_system_a.Prelude.{
  ℕ, zero, suc, ◌+◌, ◌-◌, ◌*◌, ◌≤◌, ◌<◌, ◌≡◌, refl, ap, ◌∙◌, Bool, true, false, Option, none, some,
  List, [], ◌∷◌, ltb, if◌then◌else◌, arith, take, inl, inr, ◌⊎◌,
}
use be_distribution_system_a.Routes.Tours.{Matrix, range, tour_cost}
use be_distribution_system_a.Routes.NearestNeighbor.{
  perform_2opt_swap, first_swap, first_improvement, improve,
}
use be_distribution_system_a.Routes.Visits.{visits, visits-swap}

take-swap :
    (s i j : ℕ) (tour : List ℕ) → s ≤ i → i ≤ j → take s (perform_2opt_swap i j tour) ≡ take s tour
unfolding perform_2opt_swap
take-swap zero i j tour h g = refl
take-swap (suc s) zero j tour h g = absurd (omega arith)
take-swap (suc s) (suc i) zero tour h g = absurd (omega arith)
take-swap (suc s) (suc i) (suc j) [] h g = refl
take-swap (suc s) (suc i) (suc j) (x ∷ xs) h g =
    ap (λ (l : List ℕ). x ∷ l) (take-swap s i j xs (omega arith) (omega arith))

-- The tour `t` has the visits and the start of `tour`.
pub record Rearranges (start : ℕ) (tour t : List ℕ) : Type 0 where
  pub same_visits : (k : ℕ) → visits k t ≡ visits k tour
  pub same_start : take start t ≡ take start tour

-- `t` is `tour` after one swap of two nodes from `start` on, and cheaper by more than the threshold.
pub record Improves (threshold : ℕ) (m : Matrix) (start n : ℕ) (tour t : List ℕ) : Type 0 where
  pub first : ℕ
  pub last : ℕ
  pub from_start : start ≤ first
  pub ordered : first < last
  pub inside : last < n
  pub swapped : t ≡ perform_2opt_swap first last tour
  pub gain : tour_cost m t + threshold < tour_cost m tour

-- `t` is `tour` after that many such swaps, one after the other.
pub data Improved (threshold : ℕ) (m : Matrix) (start n : ℕ) : ℕ → List ℕ → List ℕ → Type 0 where
  done : {t : List ℕ} → Improved threshold m start n 0 t t
  step :
      {k : ℕ} {tour s t : List ℕ}
      → Improves threshold m start n tour s
      → Improved threshold m start n k s t
      → Improved threshold m start n (suc k) tour t

Improves-Rearranges :
    (threshold : ℕ) (m : Matrix) (start n : ℕ) (tour t : List ℕ)
    → Improves threshold m start n tour t
    → Rearranges start tour t
Improves-Rearranges threshold m start n tour t h =
    let before : h.first ≤ h.last = omega (arith, h.ordered) in
    record {
      same_visits = λ v. ap (visits v) h.swapped ∙ visits-swap v h.first h.last tour before;
      same_start =
          ap (take start) h.swapped ∙ take-swap start h.first h.last tour h.from_start before;
    }

-- No swap from node `i` to one of `k` nodes from `j` on gains more than the threshold.
abbrev pub NoGainFrom : ℕ → Matrix → ℕ → List ℕ → ℕ → ℕ → Type 0
NoGainFrom threshold m i tour j zero = Unit
NoGainFrom threshold m i tour j (suc k) =
    (tour_cost m tour ≤ tour_cost m (perform_2opt_swap i j tour) + threshold)
    × NoGainFrom threshold m i tour (suc j) k

-- No swap of two nodes, the first of them one of `k` from `i` on, gains more than the threshold.
abbrev pub NoGain : ℕ → Matrix → ℕ → List ℕ → ℕ → ℕ → Type 0
NoGain threshold m n tour i zero = Unit
NoGain threshold m n tour i (suc k) =
    NoGainFrom threshold m i tour (suc i) (n - suc i) × NoGain threshold m n tour (suc i) k

module _ (threshold : ℕ) (m : Matrix) (start n : ℕ) where
  abbrev Found : (tour : List ℕ) (none_left : Type 0) → Option (List ℕ) → Type 0
  Found tour none_left none = none_left
  Found tour none_left (some t) = Improves threshold m start n tour t

  Found-map :
      (A B : Type 0) (tour : List ℕ) (o : Option (List ℕ))
      → (A → B)
      → Found tour A o
      → Found tour B o
  Found-map A B tour none f h = f h
  Found-map A B tour (some t) f h = h

  Found-if :
      (A B : Type 0) (tour t : List ℕ) (o : Option (List ℕ)) (b : Bool)
      → (b ≡ true → Improves threshold m start n tour t)
      → (b ≡ false → A → B)
      → Found tour A o
      → Found tour B (if b then some t else o)
  Found-if A B tour t o true p f h = p refl
  Found-if A B tour t o false p f h = Found-map A B tour o (f refl) h

  first_swap-Found :
      (i j k : ℕ) (tour : List ℕ)
      → start ≤ i
      → i < j
      → k ≤ n - j
      → Found tour (NoGainFrom threshold m i tour j k) (first_swap threshold m i tour (range j k))
  unfolding first_swap range
  first_swap-Found i j zero tour h g b = tt
  first_swap-Found i j (suc k) tour h g b =
      let t = perform_2opt_swap i j tour in
      Found-if (NoGainFrom threshold m i tour (suc j) k) (NoGainFrom threshold m i tour j (suc k))
        tour t (first_swap threshold m i tour (range (suc j) k))
        (ltb threshold (tour_cost m tour - tour_cost m t))
        (λ gain. record {
          first = i;
          last = j;
          from_start = h;
          ordered = g;
          inside = omega (arith, b);
          swapped = refl;
          gain = ground arith;
        })
        (λ small none_left. (ground arith, none_left))
        (first_swap-Found i (suc j) k tour h (omega (arith, g)) (omega (arith, b)))

  Found-first :
      (A B : Type 0) (tour : List ℕ) (o rest : Option (List ℕ))
      → Found tour A o
      → Found tour B rest
      → Found tour (A × B) (elim o [ none ↦ rest | some t ↦ some t ])
  Found-first A B tour none rest row h = Found-map B (A × B) tour rest (λ b. (row, b)) h
  Found-first A B tour (some t) rest row h = row

  first_improvement-Found :
      (i k : ℕ) (tour : List ℕ)
      → start ≤ i
      → Found tour
          (NoGain threshold m n tour i k)
          (first_improvement threshold m n tour (range i k))
  unfolding first_improvement range
  first_improvement-Found i zero tour h = tt
  first_improvement-Found i (suc k) tour h =
      Found-first _ _ tour (first_swap threshold m i tour (range (suc i) (n - suc i))) _
        (first_swap-Found i (suc i) (n - suc i) tour h (omega arith) (omega arith))
        (first_improvement-Found (suc i) k tour (omega (arith, h)))

-- What the search from `tour` ends in.
pub record Searched (threshold : ℕ) (m : Matrix) (start n iterations : ℕ) (tour t : List ℕ)
    : Type 0 where
  pub swaps : ℕ
  pub within : swaps ≤ iterations
  pub path : Improved threshold m start n swaps tour t
  pub rearranged : Rearranges start tour t
  pub gained : tour_cost m t + swaps * suc threshold ≤ tour_cost m tour
  pub finished : NoGain threshold m n t start (n - suc start) ⊎ (swaps ≡ iterations)

Searched-step :
    (threshold : ℕ) (m : Matrix) (start n iterations : ℕ) (tour s t : List ℕ)
    → Improves threshold m start n tour s
    → Searched threshold m start n iterations s t
    → Searched threshold m start n (suc iterations) tour t
Searched-step threshold m start n iterations tour s t first rest =
    let now = Improves-Rearranges threshold m start n tour s first in
    record {
      swaps = suc rest.swaps;
      within = omega (arith, rest.within);
      path = step first rest.path;
      rearranged = record {
        same_visits = λ k. rest.rearranged.same_visits k ∙ now.same_visits k;
        same_start = rest.rearranged.same_start ∙ now.same_start;
      };
      gained = omega (arith, first.gain, rest.gained);
      finished = elim rest.finished [ inl no_gain ↦ inl no_gain | inr used ↦ inr (ap suc used) ];
    }

Searched-stop :
    (threshold iterations : ℕ) (m : Matrix) (start n : ℕ) (tour : List ℕ)
    → NoGain threshold m n tour start (n - suc start) ⊎ (0 ≡ iterations)
    → Searched threshold m start n iterations tour tour
Searched-stop threshold iterations m start n tour h = record {
  swaps = 0;
  within = omega arith;
  path = done;
  rearranged = record { same_visits = λ k. refl; same_start = refl };
  gained = omega arith;
  finished = h;
}

next_round :
    (threshold iterations : ℕ) (m : Matrix) (start n : ℕ) (tour : List ℕ) (o : Option (List ℕ))
    → Found threshold m start n tour (NoGain threshold m n tour start (n - suc start)) o
    → ((t : List ℕ)
        → Searched threshold m start n iterations t (improve iterations threshold m start n t))
    → Searched threshold m start n
        (suc iterations)
        tour
        (elim o [ none ↦ tour | some t ↦ improve iterations threshold m start n t ])
next_round threshold iterations m start n tour none stuck search_on =
    Searched-stop threshold (suc iterations) m start n tour (inl stuck)
next_round threshold iterations m start n tour (some t) better search_on =
    Searched-step threshold m start n iterations tour t _ better (search_on t)

-- For every iteration limit and threshold, the 2-opt search takes `tour` to its result by a chain of
-- at most `iterations` swaps, each of two nodes from the first index that it may swap on and each
-- lowering the cost by more than the threshold; either the chain has `iterations` swaps, or no such
-- swap of the result lowers the cost by more than the threshold. The result visits the same nodes as
-- often and has the same start before that index.
pub improve-Searched :
    (threshold iterations : ℕ) (m : Matrix) (start n : ℕ) (tour : List ℕ)
    → Searched threshold m start n iterations tour (improve iterations threshold m start n tour)
unfolding improve
improve-Searched threshold zero m start n tour = Searched-stop threshold 0 m start n tour (inr refl)
improve-Searched threshold (suc iterations) m start n tour =
    next_round threshold iterations m start n tour
      (first_improvement threshold m n tour (range start (n - suc start)))
      (first_improvement-Found threshold m start n start (n - suc start) tour (omega arith))
      (improve-Searched threshold iterations m start n)
