-- ===== src/Routes/Permutations.antt =====
-- generatePermutations and the rearrangements of a list.
use be_distribution_system_a.Prelude.{
  ℕ, zero, suc, ◌≤◌, ◌≡◌, refl, sym, List, [], ◌∷◌, ◌++◌, map, All, ◌==◌, arith, length, Bool-cases,
  inl, inr,
}
use be_distribution_system_a.Routes.Exhaustive.{picks, permutations, permutations_each}
use be_distribution_system_a.Routes.Visits.{visits}

module _ {A : Type 0} {B : Type 0} (P : B → Type 0) (f : A → B) where
  pub All-map : (xs : List A) → All (λ a. P (f a)) xs → All P (map f xs)
  All-map [] h = tt
  All-map (x ∷ xs) h = (h.0, All-map xs h.1)

  pub All-unmap : (xs : List A) → All P (map f xs) → All (λ a. P (f a)) xs
  All-unmap [] h = tt
  All-unmap (x ∷ xs) h = (h.0, All-unmap xs h.1)

module _ {A : Type 0} (P : A → Type 0) where
  All-append : (xs ys : List A) → All P xs → All P ys → All P (xs ++ ys)
  All-append [] ys h g = g
  All-append (x ∷ xs) ys h g = (h.0, All-append xs ys h.1 g)

  All-unappend : (xs ys : List A) → All P (xs ++ ys) → All P xs × All P ys
  All-unappend [] ys h = (tt, h)
  All-unappend (x ∷ xs) ys h = let (a, b) = All-unappend xs ys h.1 in ((h.0, a), b)

pub All-mono :
    {A : Type 0} (P Q : A → Type 0) (xs : List A) → ((a : A) → P a → Q a) → All P xs → All Q xs
All-mono P Q [] f h = tt
All-mono P Q (x ∷ xs) f h = (f x h.0, All-mono P Q xs f h.1)

-- The same nodes, each as often.
abbrev pub SameVisits : List ℕ → List ℕ → Type 0
SameVisits xs ys = (k : ℕ) → visits k xs ≡ visits k ys

-- An element with the others of the list.
abbrev IsPick : List ℕ → ℕ × List ℕ → Type 0
IsPick xs q = SameVisits (q.0 ∷ q.1) xs × (suc (length q.1) ≡ length xs)

picks-IsPick : (xs : List ℕ) → All (IsPick xs) (picks xs)
unfolding picks visits
picks-IsPick [] = tt
picks-IsPick (x ∷ xs) = (
  ((λ k. refl), refl),
  All-map (IsPick (x ∷ xs)) (λ q. (q.0, x ∷ q.1)) (picks xs)
      (All-mono (IsPick xs) (λ q. IsPick (x ∷ xs) (q.0, x ∷ q.1)) (picks xs)
        (λ q h. ((λ k. omega (arith, h.0 k)), omega (arith, h.1))) (picks-IsPick xs)),
)

-- What holds of every pick holds of one at each element of the list.
IsPick-at :
    (x : ℕ) (xs : List ℕ) (Q : ℕ × List ℕ → Type 0)
    → All Q (picks xs)
    → 1 ≤ visits x xs
    → (rest : List ℕ) × Q (x, rest) × IsPick xs (x, rest)
unfolding picks visits
IsPick-at x [] Q h v = absurd (omega arith)
IsPick-at x (y ∷ ys) Q h v = elim (Bool-cases (y == x)) [
  | inl e ↦ let same : y ≡ x = ground arith in (ys, rw (sym same) h.0, ((λ k. rw same refl), refl))
  | inr e ↦
      let (rest, q, (visited_same, shorter)) =
        IsPick-at x ys (λ q. Q (q.0, y ∷ q.1)) (All-unmap Q (λ q. (q.0, y ∷ q.1)) (picks ys) h.1)
          (ground arith) in
      (y ∷ rest, q, ((λ k. omega (arith, visited_same k)), omega (arith, shorter)))
]

each_sound :
    (P : List ℕ → Type 0) (f : List ℕ → List (List ℕ)) (qs : List (ℕ × List ℕ))
    → All (λ q. All (λ l. P (q.0 ∷ l)) (f q.1)) qs
    → All P (permutations_each f qs)
unfolding permutations_each
each_sound P f [] h = tt
each_sound P f (q ∷ qs) h =
    All-append P (map (λ l. q.0 ∷ l) (f q.1)) (permutations_each f qs)
      (All-map P (λ l. q.0 ∷ l) (f q.1) h.0) (each_sound P f qs h.1)

each_complete :
    (P : List ℕ → Type 0) (f : List ℕ → List (List ℕ)) (qs : List (ℕ × List ℕ))
    → All P (permutations_each f qs)
    → All (λ q. All (λ l. P (q.0 ∷ l)) (f q.1)) qs
unfolding permutations_each
each_complete P f [] h = tt
each_complete P f (q ∷ qs) h =
    let (first, others) = All-unappend P (map (λ l. q.0 ∷ l) (f q.1)) (permutations_each f qs) h in
    (All-unmap P (λ l. q.0 ∷ l) (f q.1) first, each_complete P f qs others)

-- Every permutation that is generated has the elements of the list.
pub permutations_sound :
    (fuel : ℕ) (xs : List ℕ) → All (λ l. SameVisits l xs) (permutations fuel xs)
unfolding permutations visits
permutations_sound zero xs = ((λ k. refl), tt)
permutations_sound (suc fuel) xs =
    each_sound (λ l. SameVisits l xs) (permutations fuel) (picks xs)
      (All-mono (IsPick xs) (λ q. All (λ l. SameVisits (q.0 ∷ l) xs) (permutations fuel q.1))
        (picks xs)
        (λ q h.
          All-mono (λ l. SameVisits l q.1) (λ l. SameVisits (q.0 ∷ l) xs) (permutations fuel q.1)
            (λ l same k. omega (arith, same k, h.0 k)) (permutations_sound fuel q.1))
        (picks-IsPick xs))

no_visits : (l : List ℕ) → ((k : ℕ) → visits k l ≡ 0) → l ≡ []
unfolding visits
no_visits [] h = refl
no_visits (x ∷ l) h = absurd (ground (arith, h x))

-- What holds of every permutation that is generated holds of every list with the same elements.
pub permutations_complete :
    (fuel : ℕ) (xs l : List ℕ) (P : List ℕ → Type 0)
    → length xs ≡ fuel
    → All P (permutations fuel xs)
    → SameVisits l xs
    → P l
unfolding permutations visits
permutations_complete zero [] l P e h same = rw (no_visits l same) h.0
permutations_complete zero (x ∷ xs) l P e h same = absurd (omega (arith, e))
permutations_complete (suc fuel) [] l P e h same = absurd (omega (arith, e))
permutations_complete (suc fuel) (x ∷ xs) [] P e h same = absurd (ground (arith, same x))
permutations_complete (suc fuel) (x ∷ xs) (y ∷ l) P e h same =
    let (rest, q, (visited_same, shorter)) =
      IsPick-at y (x ∷ xs) (λ q. All (λ l. P (q.0 ∷ l)) (permutations fuel q.1))
        (each_complete P (permutations fuel) (picks (x ∷ xs)) h) (ground (arith, same y)) in
    permutations_complete fuel rest l (λ l. P (y ∷ l)) (omega (arith, shorter, e)) q
      (λ k. omega (arith, same k, visited_same k))
