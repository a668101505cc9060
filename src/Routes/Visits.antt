-- ===== src/Routes/Visits.antt =====
-- How often a tour visits a node, before and after the operations on tours.
use be_distribution_system_a.Prelude.{
  ℕ, zero, suc, ◌+◌, ◌≡◌, refl, ap, ◌&&◌, List, [], ◌∷◌, ◌++◌, ◌≤◌, ltb, leb, ◌==◌, if◌then◌else◌,
  arith, take, drop,
}
use mathlib.Core.List.{reverse, reverse-cons}
use be_distribution_system_a.Routes.Tours.{range}
use be_distribution_system_a.Routes.NearestNeighbor.{perform_2opt_swap}

-- How often node `k` stands in the tour.
unfoldable pub visits : ℕ → List ℕ → ℕ
visits k [] = 0
visits k (x ∷ xs) = (if x == k then 1 else 0) + visits k xs

-- Each of the nodes 0, …, n - 1 is visited once, and no other.
abbrev pub IsTour : ℕ → List ℕ → Type 0
IsTour n tour = (k : ℕ) → visits k tour ≡ (if ltb k n then 1 else 0)

pub visits-append : (k : ℕ) (xs ys : List ℕ) → visits k (xs ++ ys) ≡ visits k xs + visits k ys
unfolding visits
visits-append k [] ys = omega arith
visits-append k (x ∷ xs) ys = omega (arith, visits-append k xs ys)

visits-reverse : (k : ℕ) (xs : List ℕ) → visits k (reverse xs) ≡ visits k xs
unfolding visits
visits-reverse k [] = refl
visits-reverse k (x ∷ xs) =
    rw (reverse-cons x xs, visits-append k (reverse xs) (x ∷ []))
      (omega (arith, visits-reverse k xs))

visits-take : (k i : ℕ) (xs : List ℕ) → visits k (take i xs) + visits k (drop i xs) ≡ visits k xs
unfolding visits
visits-take k zero xs = omega arith
visits-take k (suc i) [] = omega arith
visits-take k (suc i) (x ∷ xs) = omega (arith, visits-take k i xs)

take-take : (i j : ℕ) (xs : List ℕ) → i ≤ j → take i (take j xs) ≡ take i xs
take-take zero j xs h = refl
take-take (suc i) zero xs h = absurd (omega arith)
take-take (suc i) (suc j) [] h = refl
take-take (suc i) (suc j) (x ∷ xs) h = ap (λ (l : List ℕ). x ∷ l) (take-take i j xs (omega arith))

-- A swap keeps the visits.
pub visits-swap :
    (k i j : ℕ) (tour : List ℕ) → i ≤ j → visits k (perform_2opt_swap i j tour) ≡ visits k tour
unfolding perform_2opt_swap
visits-swap k i j tour h =
    let middle = drop i (take (suc j) tour) in
    let rest = drop (suc j) tour in
    rw
      (
        visits-append k (take i tour) (reverse middle ++ rest),
        visits-append k (reverse middle) rest,
        visits-reverse k middle,
      )
      (omega (
        arith,
        visits-take k (suc j) tour,
        visits-take k i (take (suc j) tour),
        ap (visits k) (take-take i (suc j) tour (omega arith)),
      ))

pub visits-range : (k a n : ℕ) → visits k (range a n) ≡ (if leb a k && ltb k (a + n) then 1 else 0)
unfolding visits range
visits-range k a zero = ground arith
visits-range k a (suc n) = ground (arith, visits-range k (suc a) n)
