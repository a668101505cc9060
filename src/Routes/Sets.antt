-- ===== src/Routes/Sets.antt =====
-- The set of stops of a request: validateCompleteStopSet of
-- src/modules/routes/services/routes-domain.service.ts.
use be_distribution_system_a.Prelude.{
  ℕ, suc, ◌+◌, ◌≤◌, ◌≡◌, refl, ◌∙◌, Bool, true, false, not, ◌&&◌, List, [], ◌∷◌, ◌==◌, ltb,
  if◌then◌else◌, length, all, arith,
}
use be_distribution_system_a.Routes.Domain.{
  contains, set_size, has_exact_ids, insert_number, sort_numbers, is_run_from,
}

abbrev pub distinct : List ℕ → Bool
distinct [] = true
distinct (k ∷ ks) = not (contains ks k) && distinct ks

unfoldable pub count_of : ℕ → List ℕ → ℕ
count_of k [] = 0
count_of k (x ∷ xs) = (if x == k then 1 else 0) + count_of k xs

pub contains-count_of : (k : ℕ) (xs : List ℕ) → contains xs k ≡ ltb 0 (count_of k xs)
unfolding count_of
contains-count_of k [] = refl
contains-count_of k (x ∷ xs) = ground (arith, contains-count_of k xs)

set_size_bound : (xs : List ℕ) → set_size xs ≤ length xs
unfolding set_size
set_size_bound [] = omega arith
set_size_bound (x ∷ xs) = ground (arith, set_size_bound xs)

-- A list is as long as its set exactly when its elements are distinct.
pub set_size-distinct : (xs : List ℕ) → set_size xs ≡ length xs → distinct xs ≡ true
unfolding set_size
set_size-distinct [] h = refl
set_size-distinct (x ∷ xs) h = ground (arith, set_size_bound xs, set_size-distinct xs)

pub distinct-set_size : (xs : List ℕ) → distinct xs ≡ true → set_size xs ≡ length xs
unfolding set_size
distinct-set_size [] h = refl
distinct-set_size (x ∷ xs) h = ground (arith, distinct-set_size xs)

-- The values of a list, each of them once.
unfoldable dedup : List ℕ → List ℕ
dedup [] = []
dedup (x ∷ xs) = let rest = dedup xs in if contains xs x then rest else x ∷ rest

length-dedup : (xs : List ℕ) → length (dedup xs) ≡ set_size xs
unfolding dedup set_size
length-dedup [] = refl
length-dedup (x ∷ xs) = ground (arith, length-dedup xs)

contains-dedup : (k : ℕ) (xs : List ℕ) → contains (dedup xs) k ≡ contains xs k
unfolding dedup
contains-dedup k [] = refl
contains-dedup k (x ∷ xs) = ground (arith, contains-dedup k xs)

unfoldable remove : ℕ → List ℕ → List ℕ
remove k [] = []
remove k (x ∷ xs) = let rest = remove k xs in if x == k then xs else x ∷ rest

length-remove :
    (k : ℕ) (xs : List ℕ) → contains xs k ≡ true → suc (length (remove k xs)) ≡ length xs
unfolding remove
length-remove k [] h = cc
length-remove k (x ∷ xs) h = ground (arith, length-remove k xs)

contains-remove :
    (j k : ℕ) (xs : List ℕ) → (j == k) ≡ false → contains (remove k xs) j ≡ contains xs j
unfolding remove
contains-remove j k [] h = refl
contains-remove j k (x ∷ xs) h = ground (arith, contains-remove j k xs h)

all-remove :
    (k : ℕ) (xs ys : List ℕ)
    → contains xs k ≡ false
    → all (contains ys) xs ≡ true
    → all (contains (remove k ys)) xs ≡ true
all-remove k [] ys h e = refl
all-remove k (x ∷ xs) ys h e =
    let keeps = contains-remove x k ys in ground (arith, keeps, all-remove k xs ys)

-- Distinct elements of a list of the same length are all of its elements.
covers :
    (k : ℕ) (xs ys : List ℕ)
    → distinct xs ≡ true
    → all (contains ys) xs ≡ true
    → length xs ≡ length ys
    → contains ys k ≡ true
    → contains xs k ≡ true
covers k [] [] d a l h = h
covers k [] (y ∷ ys) d a l h = absurd (omega arith)
covers k (x ∷ xs) ys d a l h =
    let size : suc (length (remove x ys)) ≡ length ys = length-remove x ys (ground arith) in
    let inside : all (contains (remove x ys)) xs ≡ true =
      all-remove x xs ys (ground arith) (ground arith) in
    ground
      (arith, contains-remove k x ys, covers k xs (remove x ys) (ground arith) inside (omega arith))

-- A set of stops that is accepted names distinct stops, and all that are expected.
pub exact-distinct :
    (expected submitted : List ℕ)
    → has_exact_ids expected submitted ≡ true
    → distinct submitted ≡ true
unfolding has_exact_ids
exact-distinct expected submitted h = set_size-distinct submitted (ground arith)

all-dedup : (xs ys : List ℕ) → all (contains ys) xs ≡ true → all (contains (dedup ys)) xs ≡ true
all-dedup [] ys h = refl
all-dedup (x ∷ xs) ys h = ground (arith, contains-dedup x ys, all-dedup xs ys)

pub exact-covers :
    (k : ℕ) (expected submitted : List ℕ)
    → has_exact_ids expected submitted ≡ true
    → contains expected k ≡ true
    → contains submitted k ≡ true
exact-covers k expected submitted h e =
    covers k submitted (dedup expected) (exact-distinct expected submitted h)
      (all-dedup submitted expected (unfold has_exact_ids in ground arith))
      (unfold has_exact_ids in ground (arith, length-dedup expected))
      (contains-dedup k expected ∙ e)

count_of-insert : (k x : ℕ) (xs : List ℕ) → count_of k (insert_number x xs) ≡ count_of k (x ∷ xs)
unfolding count_of insert_number
count_of-insert k x [] = refl
count_of-insert k x (y ∷ xs) = ground (arith, count_of-insert k x xs)

count_of-sort : (k : ℕ) (xs : List ℕ) → count_of k (sort_numbers xs) ≡ count_of k xs
unfolding sort_numbers count_of
count_of-sort k [] = refl
count_of-sort k (x ∷ xs) =
    count_of-insert k x (sort_numbers xs) ∙ unfold count_of in omega (arith, count_of-sort k xs)

run_counts :
    (i k : ℕ) (xs : List ℕ)
    → is_run_from i xs ≡ true
    → (count_of k xs ≤ 1) × (k ≤ i → count_of k xs ≡ 0)
unfolding is_run_from count_of
run_counts i k [] h = (omega arith, λ e. refl)
run_counts i k (x ∷ xs) h =
    let (one, below) = run_counts (suc i) k xs (ground arith) in
    (ground (arith, one, below), λ e. ground (arith, below))

distinct_of_counts : (xs : List ℕ) → ((k : ℕ) → count_of k xs ≤ 1) → distinct xs ≡ true
unfolding count_of
distinct_of_counts [] h = refl
distinct_of_counts (x ∷ xs) h =
    let tail : (k : ℕ) → count_of k xs ≤ 1 = λ k. ground (arith, h k) in
    ground (arith, distinct_of_counts xs tail, contains-count_of x xs, h x)

-- Sequences that run from 1 when they are sorted are distinct, and none of them is 0.
pub run-distinct :
    (xs : List ℕ)
    → is_run_from 0 (sort_numbers xs) ≡ true
    → (distinct xs ≡ true) × (contains xs 0 ≡ false)
run-distinct xs h = (
  distinct_of_counts xs
      λ k. omega (arith, count_of-sort k xs, (run_counts 0 k (sort_numbers xs) h).0),
  ground (
    arith,
    contains-count_of 0 xs,
    count_of-sort 0 xs,
    (run_counts 0 0 (sort_numbers xs) h).1 (omega arith),
  ),
)
