-- ===== src/Routes/Construction.antt =====
-- Tours in the making, and the nearest-neighbour construction.
use be_distribution_system_a.Prelude.{
  ℕ, zero, suc, ◌+◌, ◌≤◌, ◌<◌, ◌≡◌, refl, sym, ap, ◌∙◌, Option, none, some, List, [], ◌∷◌, ◌++◌,
  All, ltb, ◌==◌, if◌then◌else◌, arith, length, length-append, Bool-cases, inl, inr,
}
use mathlib.Core.Path.{subst}
use be_distribution_system_a.Routes.Tours.{Problem, range}
use be_distribution_system_a.Routes.NearestNeighbor.{
  visited, is_nearer, consider, nearest, construct, improved_tour, start_index,
}
use be_distribution_system_a.Routes.Visits.{visits, visits-append, IsTour}
use be_distribution_system_a.Routes.Improvement.{improve-Searched}

visited-visits : (i : ℕ) (tour : List ℕ) → visited tour i ≡ ltb 0 (visits i tour)
unfolding visits
visited-visits i [] = refl
visited-visits i (x ∷ xs) = ground (arith, visited-visits i xs)

-- The number of visits of the nodes below `n`.
unfoldable total : ℕ → List ℕ → ℕ
total zero tour = 0
total (suc n) tour = visits n tour + total n tour

total-outside : (n i : ℕ) (tour : List ℕ) → n ≤ i → total n (tour ++ i ∷ []) ≡ total n tour
unfolding total visits
total-outside zero i tour h = refl
total-outside (suc n) i tour h =
    ground (arith, total-outside n i tour, visits-append n tour (i ∷ []))

total-append : (n i : ℕ) (tour : List ℕ) → i < n → total n (tour ++ i ∷ []) ≡ suc (total n tour)
unfolding total visits
total-append zero i tour h = absurd (omega arith)
total-append (suc n) i tour h =
    ground (arith, total-append n i tour, total-outside n i tour, visits-append n tour (i ∷ []))

-- A tour in the making: no node twice, and none outside.
record Partial (n : ℕ) (tour : List ℕ) : Type 0 where
  once : (k : ℕ) → visits k tour ≤ 1
  within : (k : ℕ) → n ≤ k → visits k tour ≡ 0
  counted : total n tour ≡ length tour

total_bound : (n : ℕ) (tour : List ℕ) → ((k : ℕ) → visits k tour ≤ 1) → total n tour ≤ n
unfolding total
total_bound zero tour h = omega arith
total_bound (suc n) tour h = omega (arith, h n, total_bound n tour h)

total_full :
    (n k : ℕ) (tour : List ℕ)
    → ((k : ℕ) → visits k tour ≤ 1)
    → n ≤ total n tour
    → k < n
    → 1 ≤ visits k tour
unfolding total
total_full zero k tour h g l = absurd (omega arith)
total_full (suc n) k tour h g l =
    let bound = total_bound n tour h in
    let last = h n in
    elim (Bool-cases (k == n)) [
      | inl e ↦ ground arith
      | inr e ↦ total_full n k tour h (omega (arith, bound, last, g)) (ground arith)
    ]

all_seen-IsTour :
    (n : ℕ) (tour : List ℕ) → Partial n tour → ((k : ℕ) → k < n → 1 ≤ visits k tour) → IsTour n tour
all_seen-IsTour n tour p h k = elim (Bool-cases (ltb k n)) [
  | inl e ↦ let inside : k < n = ground arith in rw e (omega (arith, p.once k, h k inside))
  | inr e ↦ rw e (p.within k (ground arith))
]

Partial-snoc :
    (n i : ℕ) (tour : List ℕ)
    → Partial n tour
    → visits i tour ≡ 0
    → i < n
    → Partial n (tour ++ i ∷ [])
unfolding visits
Partial-snoc n i tour p fresh inside = record {
  once = λ k. ground (arith, p.once k, visits-append k tour (i ∷ []));
  within = λ k h. ground (arith, p.within k h, visits-append k tour (i ∷ []));
  counted = omega (arith, total-append n i tour inside, p.counted, length-append tour (i ∷ []));
}

-- What the search of the nearest node over `xs` finds: a fresh node, or that all are visited.
abbrev Fresh : ℕ → List ℕ → List ℕ → Option ℕ → Type 0
Fresh n tour xs none = All (λ i. 1 ≤ visits i tour) xs
Fresh n tour xs (some i) = (visits i tour ≡ 0) × (i < n)

module _ (p : Problem) (last n : ℕ) (tour : List ℕ) where
  consider_kept :
      (a best : ℕ)
      → a < n
      → Fresh n tour [] (some best)
      → (i : ℕ) × (consider p last tour a (some best) ≡ some i) × Fresh n tour [] (some i)
  unfolding consider
  consider_kept a best h fresh = elim (Bool-cases (visited tour a)) [
    | inl e ↦ (best, ground arith, fresh)
    | inr e ↦ elim (Bool-cases (is_nearer p last a (some best))) [
      | inl f ↦ (a, ground arith, (ground (arith, visited-visits a tour), h))
      | inr f ↦ (best, ground arith, fresh)
    ]
  ]

  -- A node that was found is only replaced by another one.
  nearest_kept :
      (a k best : ℕ)
      → a + k ≤ n
      → Fresh n tour [] (some best)
      → (i : ℕ) × (nearest p last tour (range a k) (some best) ≡ some i) × Fresh n tour [] (some i)
  unfolding nearest range
  nearest_kept a zero best h fresh = (best, refl, fresh)
  nearest_kept a (suc k) best h fresh =
      let (b, e, better) = consider_kept a best (omega arith) fresh in
      let (i, f, found) = nearest_kept (suc a) k b (omega arith) better in
      (i, ap (nearest p last tour (range (suc a) k)) e ∙ f, found)

  consider_first : (a : ℕ) → consider p last tour a none ≡ (if visited tour a then none else some a)
  unfolding consider is_nearer
  consider_first a = refl

  Fresh-cons :
      (a k : ℕ) (o : Option ℕ)
      → 1 ≤ visits a tour
      → Fresh n tour (range (suc a) k) o
      → Fresh n tour (range a (suc k)) o
  unfolding range
  Fresh-cons a k none seen h = (seen, h)
  Fresh-cons a k (some i) seen h = h

  nearest-Fresh :
      (a k : ℕ) → a + k ≤ n → Fresh n tour (range a k) (nearest p last tour (range a k) none)
  unfolding nearest range
  nearest-Fresh a zero h = tt
  nearest-Fresh a (suc k) h = elim (Bool-cases (visited tour a)) [
    | inl e ↦
        let unchanged : consider p last tour a none ≡ none = ground (arith, consider_first a) in
        subst (λ o. Fresh n tour (range a (suc k)) (nearest p last tour (range (suc a) k) o))
          (sym unchanged)
          (Fresh-cons a k _ (ground (arith, visited-visits a tour))
            (nearest-Fresh (suc a) k (omega arith)))
    | inr e ↦
        let taken : consider p last tour a none ≡ some a = ground (arith, consider_first a) in
        let (i, f, found) =
          nearest_kept (suc a) k a (omega arith)
            (ground (arith, visited-visits a tour), omega arith) in
        subst (Fresh n tour (range a (suc k)))
          (sym (ap (nearest p last tour (range (suc a) k)) taken ∙ f)) found
  ]

All-range :
    (a k n i : ℕ) (tour : List ℕ)
    → All (λ j. 1 ≤ visits j tour) (range a k)
    → a ≤ i
    → i < a + k
    → 1 ≤ visits i tour
unfolding range
All-range a zero n i tour h l u = absurd (omega arith)
All-range a (suc k) n i tour h l u = elim (Bool-cases (a == i)) [
  | inl e ↦ ground (arith, h.0)
  | inr e ↦ All-range (suc a) k n i tour h.1 (ground arith) (omega arith)
]

extend-IsTour :
    (fuel : ℕ) (p : Problem) (n : ℕ) (tour : List ℕ) (o : Option ℕ)
    → Partial n tour
    → Fresh n tour (range 0 n) o
    → ((i : ℕ) → Partial n (tour ++ i ∷ []) → IsTour n (construct fuel p n i (tour ++ i ∷ [])))
    → IsTour n (elim o [ none ↦ tour | some i ↦ construct fuel p n i (tour ++ i ∷ []) ])
extend-IsTour fuel p n tour none part seen go_on =
    all_seen-IsTour n tour part λ k h. All-range 0 n n k tour seen (omega arith) (omega arith)
extend-IsTour fuel p n tour (some i) part (fresh, inside) go_on =
    go_on i (Partial-snoc n i tour part fresh inside)

-- With a round for each node that is missing, the construction visits every node once.
construct-IsTour :
    (fuel : ℕ) (p : Problem) (n last : ℕ) (tour : List ℕ)
    → Partial n tour
    → n ≤ fuel + length tour
    → IsTour n (construct fuel p n last tour)
unfolding construct
construct-IsTour zero p n last tour part enough =
    all_seen-IsTour n tour part
      λ k h. total_full n k tour part.once (omega (arith, part.counted, enough)) h
construct-IsTour (suc fuel) p n last tour part enough = elim (Bool-cases (ltb (length tour) n)) [
  | inl e ↦ rw e (
      extend-IsTour fuel p n tour _ part (nearest-Fresh p last n tour 0 n (omega arith)) (λ i next.
        construct-IsTour fuel p n i (tour ++ i ∷ []) next
          (omega (arith, length-append tour (i ∷ []), enough))))
  | inr e ↦ rw e (
      all_seen-IsTour n tour part
        λ k h. total_full n k tour part.once (ground (arith, part.counted)) h)
]

total-nil : (n : ℕ) → total n [] ≡ 0
unfolding total visits
total-nil zero = refl
total-nil (suc n) = omega (arith, total-nil n)

start-Partial : (n : ℕ) → 1 ≤ n → Partial n (0 ∷ [])
unfolding visits
start-Partial n h = record {
  once = λ k. ground arith;
  within = λ k l. ground arith;
  counted = omega (arith, total-append n 0 [] h, total-nil n);
}

-- For at least one waypoint, any limit and any threshold: the improved tour visits every waypoint
-- exactly once.
pub improved_tour-IsTour :
    (p : Problem) (iterations threshold n : ℕ)
    → 1 ≤ n
    → IsTour n (improved_tour p iterations threshold n)
unfolding improved_tour
improved_tour-IsTour p iterations threshold n h k =
    let built = construct-IsTour n p n 0 (0 ∷ []) (start-Partial n h) (omega arith) in
    let searched =
      improve-Searched threshold iterations p.durations (start_index p.fixed_origin) n
        (construct n p n 0 (0 ∷ [])) in
    searched.rearranged.same_visits k ∙ built k
