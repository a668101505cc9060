-- ===== src/Routes/Acceptance.antt =====
-- What the checks of `reorderStops` in src/modules/routes/services/routes-domain.service.ts say of the
-- stops of the delivery.
use be_distribution_system_a.Prelude.{
  ℕ, zero, suc, ◌≡◌, refl, ap, true, false, none, some, List, [], ◌∷◌, ◌==◌, map, all, any, All,
  arith, ==_iff, Bool-cases, inl, inr,
}
use be_distribution_system_a.Prelude.Table.{find_by, find_many, IsUnique}
use be_distribution_system_a.Routes.Domain.{
  at, PlacedStop, placed_key, placed_delivery, contains, has_exact_ids, is_run_from, sort_numbers,
  validate_complete_stop_set,
}
use be_distribution_system_a.Routes.Selection.{
  StopSequenceItem, item_stop, item_sequence, set_error,
}
use be_distribution_system_a.Routes.Moves.{negate, is_taken}
use be_distribution_system_a.Routes.Placing.{
  is_parked, IsStopOf, IsFree, parks, at_free, parked_free,
}

-- What a request that is accepted says.
pub accepted_set :
    (expected submitted sequences : List ℕ)
    → set_error expected submitted (some sequences) ≡ none
    → (all (contains expected) submitted ≡ true)
      × (has_exact_ids expected submitted ≡ true)
      × (is_run_from 0 (sort_numbers sequences) ≡ true)
unfolding validate_complete_stop_set
accepted_set expected submitted sequences h = (ground arith, ground arith, ground arith)

-- A stop of the delivery is found under its id.
stop_found :
    (d k : ℕ) (ss : List PlacedStop)
    → IsUnique placed_key ss
    → contains (map placed_key (find_many placed_delivery d ss)) k ≡ true
    → (s : PlacedStop) × (find_by placed_key k ss ≡ some s) × (s.delivery_id ≡ d)
unfolding find_many find_by
stop_found d k [] unique h = cc
stop_found d k (s ∷ ss) unique h = elim (Bool-cases (s.id == k)) [
  | inl e ↦ elim (Bool-cases (s.delivery_id == d)) [
    | inl f ↦ (s, ground arith, ground arith)
    | inr f ↦
        let (x, g, own) = stop_found d k ss unique.1 (ground arith) in
        absurd (ground (arith, unique.0, ap (λ j. find_by placed_key j ss) ((==_iff s.id k).0 e)))
  ]
  | inr e ↦ let (x, f, g) = stop_found d k ss unique.1 (ground arith) in (x, ground arith, g)
]

pub items_found :
    (d : ℕ) (is : List StopSequenceItem) (ss : List PlacedStop)
    → IsUnique placed_key ss
    → all (contains (map placed_key (find_many placed_delivery d ss))) (map item_stop is) ≡ true
    → All (IsStopOf d ss) is
items_found d [] ss unique h = tt
items_found d (i ∷ is) ss unique h = (
  stop_found d i.delivery_stop_id ss unique (ground arith),
  items_found d is ss unique (ground arith),
)

pub stops_covered :
    (d : ℕ) (ids : List ℕ) (ss : List PlacedStop)
    → ((k : ℕ)
        → contains (map placed_key (find_many placed_delivery d ss)) k ≡ true
        → contains ids k ≡ true)
    → parks d ids ss ≡ true
unfolding find_many
stops_covered d ids [] h = refl
stops_covered d ids (s ∷ ss) h =
    let rest = stops_covered d ids ss (λ k e. ground (arith, h k)) in ground (arith, rest, h s.id)

negate_free :
    (d k n : ℕ) (ss : List PlacedStop)
    → (n == 0) ≡ false
    → any (λ s. is_parked s.place) ss ≡ false
    → is_taken d k (negate n) ss ≡ false
negate_free d k zero ss e h = cc
negate_free d k (suc n) ss e h = parked_free d k n ss h

pub negated-IsFree :
    (d : ℕ) (is : List StopSequenceItem) (ss : List PlacedStop)
    → contains (map item_sequence is) 0 ≡ false
    → any (λ s. is_parked s.place) ss ≡ false
    → All (IsFree negate d ss) is
negated-IsFree d [] ss z h = tt
negated-IsFree d (i ∷ is) ss z h = (
  negate_free d i.delivery_stop_id i.sequence ss (ground arith) h,
  negated-IsFree d is ss (ground arith) h,
)

pub places-IsFree :
    (d : ℕ) (is : List StopSequenceItem) (ss : List PlacedStop)
    → parks d [] ss ≡ true
    → All (IsFree at d ss) is
places-IsFree d [] ss h = tt
places-IsFree d (i ∷ is) ss h =
    (at_free d i.delivery_stop_id i.sequence ss h, places-IsFree d is ss h)
