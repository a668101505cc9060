-- ===== src/Routes/Placing.antt =====
-- The two loops of `reorderStops` in src/modules/routes/services/routes-domain.service.ts: first every
-- stop is moved to a negative sequence, then to its new one.
use be_distribution_system_a.Prelude.{
  ℕ, zero, suc, ◌≡◌, refl, ◌∙◌, ap, Bool, true, false, not, ◌||◌, some, List, [], ◌∷◌, ◌==◌,
  if◌then◌else◌, map, all, any, All, arith, Bool-cases, inl, inr,
}
use mathlib.Core.Option
use be_distribution_system_a.Prelude.Table.{find_by, update_by, find_by-update_by}
use be_distribution_system_a.Routes.Domain.{Place, at, parked, PlacedStop, placed_key, contains}
use be_distribution_system_a.Routes.Selection.{StopSequenceItem, item_stop, item_sequence, ◌>>=◌}
use be_distribution_system_a.Routes.Moves.{
  negate, same_place, is_taken, placed_at, put, place_stop, place_all,
}
use be_distribution_system_a.Routes.Sets.{distinct}

abbrev pub is_parked : Place → Bool
is_parked (at n) = false
is_parked (parked n) = true

-- What the writes of a loop make of the table, when none of them fails.
unfoldable pub put_all : (ℕ → Place) → List StopSequenceItem → List PlacedStop → List PlacedStop
put_all f [] ss = ss
put_all f (i ∷ is) ss = put_all f is (put i.delivery_stop_id (f i.sequence) ss)

-- The stop of an item is there and belongs to the delivery.
abbrev pub IsStopOf : ℕ → List PlacedStop → StopSequenceItem → Type 0
IsStopOf d ss i =
    (s : PlacedStop) × (find_by placed_key i.delivery_stop_id ss ≡ some s) × (s.delivery_id ≡ d)

-- No other stop of the delivery has the place of an item.
abbrev pub IsFree : (ℕ → Place) → ℕ → List PlacedStop → StopSequenceItem → Type 0
IsFree f d ss i = is_taken d i.delivery_stop_id (f i.sequence) ss ≡ false

pub find-put :
    (j k : ℕ) (p : Place) (ss : List PlacedStop)
    → find_by placed_key j (put k p ss) ≡ (
        if j == k
        then Option.map (placed_at p) (find_by placed_key j ss)
        else find_by placed_key j ss)
find-put j k p ss = find_by-update_by placed_key j k (λ s. true) (placed_at p) ss (λ s. refl)

IsStopOf-put :
    (d k : ℕ) (p : Place) (ss : List PlacedStop) (i : StopSequenceItem)
    → IsStopOf d ss i
    → IsStopOf d (put k p ss) i
IsStopOf-put d k p ss i (s, e, h) = elim (Bool-cases (i.delivery_stop_id == k)) [
  | inl b ↦ (placed_at p s, find-put i.delivery_stop_id k p ss ∙ ground arith, h)
  | inr b ↦ (s, find-put i.delivery_stop_id k p ss ∙ ground arith, h)
]

is_taken-put :
    (d j k : ℕ) (p r : Place) (ss : List PlacedStop)
    → same_place r p ≡ false
    → is_taken d k p ss ≡ false
    → is_taken d k p (put j r ss) ≡ false
unfolding is_taken update_by
is_taken-put d j k p r [] h e = refl
is_taken-put d j k p r (s ∷ ss) h e = ground (arith, is_taken-put d j k p r ss h)

pub All-map :
    {P Q : StopSequenceItem → Type 0} (is : List StopSequenceItem)
    → ((i : StopSequenceItem) → P i → Q i)
    → All P is
    → All Q is
All-map [] f h = h
All-map (i ∷ is) f (p, h) = (f i p, All-map is f h)

-- Distinct sequences have distinct places.
abbrev pub Separates : (ℕ → Place) → Type 0
Separates f = (m n : ℕ) → (m == n) ≡ false → same_place (f m) (f n) ≡ false

pub negate-Separates : Separates negate
negate-Separates zero zero h = cc
negate-Separates zero (suc n) h = refl
negate-Separates (suc m) zero h = refl
negate-Separates (suc m) (suc n) h = ground arith

pub at-Separates : Separates at
at-Separates m n h = h

IsFree-put :
    (f : ℕ → Place) (d : ℕ) (x : StopSequenceItem) (is : List StopSequenceItem)
    (ss : List PlacedStop)
    → Separates f
    → contains (map item_sequence is) x.sequence ≡ false
    → All (IsFree f d ss) is
    → All (IsFree f d (put x.delivery_stop_id (f x.sequence) ss)) is
IsFree-put f d x [] ss sep c h = h
IsFree-put f d x (i ∷ is) ss sep c (p, h) = (
  is_taken-put d x.delivery_stop_id i.delivery_stop_id (f i.sequence) (f x.sequence) ss
      (sep x.sequence i.sequence (ground arith)) p,
  IsFree-put f d x is ss sep (ground arith) h,
)

place_stop-free :
    (d k : ℕ) (p : Place) (ss : List PlacedStop)
    → (s : PlacedStop) × (find_by placed_key k ss ≡ some s) × (s.delivery_id ≡ d)
    → is_taken d k p ss ≡ false
    → place_stop k p ss ≡ some (put k p ss)
unfolding place_stop
place_stop-free d k p ss (s, e, h) free = ground (arith, ap (λ x. is_taken x k p ss) h)

-- A loop whose places are free does not fail.
pub place_all-free :
    (f : ℕ → Place) (d : ℕ) (is : List StopSequenceItem) (ss : List PlacedStop)
    → Separates f
    → distinct (map item_sequence is) ≡ true
    → All (IsStopOf d ss) is
    → All (IsFree f d ss) is
    → place_all f is ss ≡ some (put_all f is ss)
unfolding place_all put_all
place_all-free f d [] ss sep dist own free = refl
place_all-free f d (i ∷ is) ss sep dist ((s, e, h), own) (p, free) =
    let ss' = put i.delivery_stop_id (f i.sequence) ss in
    let rest =
      place_all-free f d is ss' sep (ground arith)
        (All-map is (IsStopOf-put d i.delivery_stop_id (f i.sequence) ss) own)
        (IsFree-put f d i is ss sep (ground arith) free) in
    ap (λ o. o >>= place_all f is)
      (place_stop-free d i.delivery_stop_id (f i.sequence) ss (s, e, h) p)
    ∙ rest

-- The place of an item after a loop.
find-put_all :
    (f : ℕ → Place) (k : ℕ) (is : List StopSequenceItem) (ss : List PlacedStop)
    → contains (map item_stop is) k ≡ false
    → find_by placed_key k (put_all f is ss) ≡ find_by placed_key k ss
unfolding put_all
find-put_all f k [] ss h = refl
find-put_all f k (i ∷ is) ss h =
    find-put_all f k is (put i.delivery_stop_id (f i.sequence) ss) (ground arith)
    ∙ find-put k i.delivery_stop_id (f i.sequence) ss
    ∙ ground arith

-- The stop of an item is there, belongs to the delivery and has the item's place.
abbrev pub IsPlaced : (ℕ → Place) → ℕ → List PlacedStop → StopSequenceItem → Type 0
IsPlaced f d ss i =
    (s : PlacedStop) × (find_by placed_key i.delivery_stop_id ss ≡ some s)
    × (s.delivery_id ≡ d)
    × (s.place ≡ f i.sequence)

pub put_all-Placed :
    (f : ℕ → Place) (d : ℕ) (is : List StopSequenceItem) (ss : List PlacedStop)
    → distinct (map item_stop is) ≡ true
    → All (IsStopOf d ss) is
    → All (IsPlaced f d (put_all f is ss)) is
unfolding put_all
put_all-Placed f d [] ss dist own = own
put_all-Placed f d (i ∷ is) ss dist ((s, e, h), own) =
    let ss' = put i.delivery_stop_id (f i.sequence) ss in
    (
      (
        placed_at (f i.sequence) s,
        find-put_all f i.delivery_stop_id is ss' (ground arith)
            ∙ find-put i.delivery_stop_id i.delivery_stop_id (f i.sequence) ss
            ∙ ground arith,
        h,
        refl,
      ),
      put_all-Placed f d is ss' (ground arith)
          (All-map is (IsStopOf-put d i.delivery_stop_id (f i.sequence) ss) own),
    )

-- Every stop of the delivery is parked or still to be moved.
abbrev pub parks : ℕ → List ℕ → List PlacedStop → Bool
parks d ids ss = all (λ s. not (s.delivery_id == d) || is_parked s.place || contains ids s.id) ss

parks-put :
    (d k n : ℕ) (ids : List ℕ) (ss : List PlacedStop)
    → parks d (k ∷ ids) ss ≡ true
    → parks d ids (put k (parked n) ss) ≡ true
unfolding update_by
parks-put d k n ids [] h = refl
parks-put d k n ids (s ∷ ss) h = ground (arith, parks-put d k n ids ss)

parks-negate :
    (d k n : ℕ) (ids : List ℕ) (ss : List PlacedStop)
    → (n == 0) ≡ false
    → parks d (k ∷ ids) ss ≡ true
    → parks d ids (put k (negate n) ss) ≡ true
parks-negate d k zero ids ss z h = cc
parks-negate d k (suc n) ids ss z h = parks-put d k n ids ss h

pub parks-put_all :
    (d : ℕ) (is : List StopSequenceItem) (ss : List PlacedStop)
    → contains (map item_sequence is) 0 ≡ false
    → parks d (map item_stop is) ss ≡ true
    → parks d [] (put_all negate is ss) ≡ true
unfolding put_all
parks-put_all d [] ss z h = h
parks-put_all d (i ∷ is) ss z h =
    parks-put_all d is (put i.delivery_stop_id (negate i.sequence) ss) (ground arith)
      (parks-negate d i.delivery_stop_id i.sequence (map item_stop is) ss (ground arith) h)

-- A place is free for all, if it is of the other kind than those of the delivery.
pub at_free :
    (d k n : ℕ) (ss : List PlacedStop) → parks d [] ss ≡ true → is_taken d k (at n) ss ≡ false
unfolding is_taken
at_free d k n [] h = refl
at_free d k n (s ∷ ss) h = ground (arith, at_free d k n ss)

pub parked_free :
    (d k n : ℕ) (ss : List PlacedStop)
    → any (λ s. is_parked s.place) ss ≡ false
    → is_taken d k (parked n) ss ≡ false
unfolding is_taken
parked_free d k n [] h = refl
parked_free d k n (s ∷ ss) h = ground (arith, parked_free d k n ss)
