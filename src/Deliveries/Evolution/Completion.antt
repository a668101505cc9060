-- ===== src/Deliveries/Evolution/Completion.antt =====
-- The completion and the cancellation of a delivery, and the evolution of the database.
use be_distribution_system_a.Prelude.{
  ℕ, Bool, true, false, Option, none, some, ◌≡◌, refl, ◌⊎◌, inl, inr, sym, List, [], ◌∷◌, arith,
}
use mathlib.Core.Path.{subst}
use be_distribution_system_a.Deliveries.Model.{
  DeliveryStatus, completed, is_terminal, DeliveryActor, Delivery, DeliveryStop,
}
use be_distribution_system_a.Deliveries.World.{World, transaction, gets, ◌>>=◌}
use be_distribution_system_a.Deliveries.Service.{claim_delivery, broadcast_status_changed}
use be_distribution_system_a.Deliveries.Completion.{
  Evaluation, not_completed, eligible, evaluate_stops, evaluate_delivery_completion, is_en_route,
  finish_as, is_operational, set_cancelled, broadcast_if_updated, auto_complete_rows,
  complete_delivery_if_eligible, complete_rows, complete_target, write_complete, cancel_rows,
  write_cancel, or_unfinished,
}
use be_distribution_system_a.Deliveries.Evolution.{◌⟶◌, complete, fail, cancel}
use be_distribution_system_a.Deliveries.Evolution.Rules.{
  Keeps, MovesDelivery, update_delivery-Evolves, gets_then-Keeps, keeping,
}

-- A claim of a delivery whose filter admits only rows that may move so.
pub claim_delivery-Keeps :
    (k : ℕ) (q : Delivery → Bool) (f : Delivery → Delivery)
    → ((d : Delivery) → (f d).id ≡ d.id)
    → ((d : Delivery) → q d ≡ true → MovesDelivery f d)
    → Keeps (claim_delivery k q f)
unfolding claim_delivery
claim_delivery-Keeps k q f ids moves = record {
  at = λ w. update_delivery-Evolves w k q f ids (λ d _ h. moves d h);
}

-- The state in which an eligible delivery ends.
abbrev pub IsOutcome : Evaluation → Type 0
IsOutcome (not_completed _) = Unit
IsOutcome (eligible t) = (t ≡ completed) ⊎ (t ≡ DeliveryStatus.failed)

pub evaluate_stops-IsOutcome : (ss : List DeliveryStop) → IsOutcome (evaluate_stops ss)
unfolding evaluate_stops
evaluate_stops-IsOutcome [] = tt
evaluate_stops-IsOutcome (s ∷ ss) = ground arith

pub evaluate_delivery-IsOutcome : (k : ℕ) (w : World) → IsOutcome (evaluate_delivery_completion k w)
unfolding evaluate_delivery_completion
evaluate_delivery-IsOutcome k w = evaluate_stops-IsOutcome _

is_en_route_eq : (d : Delivery) → is_en_route d ≡ true → d.status ≡ DeliveryStatus.en_route
is_en_route_eq d h = ground arith

finish_edge :
    (t : DeliveryStatus)
    → (t ≡ completed) ⊎ (t ≡ DeliveryStatus.failed)
    → DeliveryStatus.en_route ⟶ t
finish_edge t (inl e) = rw e complete
finish_edge t (inr e) = rw e fail

finish-moves :
    (t : DeliveryStatus) (now : ℕ) (d : Delivery)
    → (t ≡ completed) ⊎ (t ≡ DeliveryStatus.failed)
    → is_en_route d ≡ true
    → MovesDelivery (finish_as t now) d
finish-moves t now d o h =
    (ground arith, subst (λ s. s ⟶ t) (sym (is_en_route_eq d h)) (finish_edge t o))

pub finish_claim-Keeps :
    (k : ℕ) (t : DeliveryStatus) (now : ℕ)
    → (t ≡ completed) ⊎ (t ≡ DeliveryStatus.failed)
    → Keeps (claim_delivery k is_en_route (finish_as t now))
finish_claim-Keeps k t now o =
    claim_delivery-Keeps k is_en_route (finish_as t now) (λ d. refl)
      (λ d h. finish-moves t now d o h)

auto_complete_rows-Keeps :
    (k now : ℕ) (e : Evaluation) → IsOutcome e → Keeps (auto_complete_rows k now e)
unfolding auto_complete_rows
auto_complete_rows-Keeps k now (not_completed _) o = search keeping
auto_complete_rows-Keeps k now (eligible t) o = search (keeping, finish_claim-Keeps k t now o)

pub broadcast-Keeps :
    (k : ℕ) (s : DeliveryStatus) (a : DeliveryActor) → Keeps (broadcast_status_changed k s a)
broadcast-Keeps k s a = search keeping

broadcast_if_updated-Keeps :
    (k : ℕ) (a : DeliveryActor) (o : Option Delivery) → Keeps (broadcast_if_updated k a o)
broadcast_if_updated-Keeps k a none = search keeping
broadcast_if_updated-Keeps k a (some d) = broadcast-Keeps k d.status a

evaluate_then_complete-Keeps :
    (k now : ℕ) → Keeps (gets (evaluate_delivery_completion k) >>= auto_complete_rows k now)
evaluate_then_complete-Keeps k now =
    gets_then-Keeps (evaluate_delivery_completion k) (auto_complete_rows k now)
      (λ w. auto_complete_rows-Keeps k now _ (evaluate_delivery-IsOutcome k w))

auto_complete-Keeps :
    (k now : ℕ) (a : DeliveryActor)
    → Keeps (
        transaction (gets (evaluate_delivery_completion k) >>= auto_complete_rows k now)
        >>= broadcast_if_updated k a)
auto_complete-Keeps k now a =
    search (keeping, evaluate_then_complete-Keeps, broadcast_if_updated-Keeps)

pub complete_if_eligible-Keeps :
    (k : ℕ) (a : DeliveryActor) (now : ℕ) → Keeps (complete_delivery_if_eligible k a now)
unfolding complete_delivery_if_eligible
complete_if_eligible-Keeps k a now = record { at = λ w. (auto_complete-Keeps k now a).at w }

complete_after_claim-Keeps :
    (k : ℕ) (a : DeliveryActor) (now : ℕ) (t : DeliveryStatus)
    → Keeps (claim_delivery k is_en_route (finish_as t now))
    → Keeps (complete_target k a now t)
unfolding complete_target
complete_after_claim-Keeps k a now t claim = search keeping depth 12

complete_target-Keeps :
    (k : ℕ) (a : DeliveryActor) (now : ℕ) (t : DeliveryStatus)
    → (t ≡ completed) ⊎ (t ≡ DeliveryStatus.failed)
    → Keeps (complete_target k a now t)
complete_target-Keeps k a now t o =
    complete_after_claim-Keeps k a now t (finish_claim-Keeps k t now o)

complete_evaluated-Keeps :
    (k : ℕ) (a : DeliveryActor) (now : ℕ) (e : Evaluation)
    → IsOutcome e
    → Keeps (or_unfinished e >>= complete_target k a now)
complete_evaluated-Keeps k a now (not_completed _) o = search keeping
complete_evaluated-Keeps k a now (eligible t) o = record {
  at = (complete_target-Keeps k a now t o).at;
}

complete_rows-Keeps : (k : ℕ) (a : DeliveryActor) (now : ℕ) → Keeps (complete_rows k a now)
unfolding complete_rows
complete_rows-Keeps k a now =
    gets_then-Keeps (evaluate_delivery_completion k)
      (λ e. or_unfinished e >>= complete_target k a now)
      (λ w. complete_evaluated-Keeps k a now _ (evaluate_delivery-IsOutcome k w))

-- The writes of `completeDelivery` and `cancelDelivery`, on any database.
pub write_complete-Keeps : (k : ℕ) (a : DeliveryActor) (now : ℕ) → Keeps (write_complete k a now)
unfolding write_complete
write_complete-Keeps k a now = search (keeping, complete_rows-Keeps, broadcast-Keeps) depth 8

set_cancelled-Keeps : (k : ℕ) → Keeps (claim_delivery k is_operational set_cancelled)
set_cancelled-Keeps k =
    claim_delivery-Keeps k is_operational set_cancelled (λ d. refl)
      (λ d h.
        let open_row : is_terminal d.status ≡ false = ground arith in (open_row, cancel open_row))

cancel_rows-Keeps : (k reason : ℕ) (a : DeliveryActor) → Keeps (cancel_rows k reason a)
unfolding cancel_rows
cancel_rows-Keeps k reason a = search (keeping, set_cancelled-Keeps) depth 12

pub write_cancel-Keeps : (k reason : ℕ) (a : DeliveryActor) → Keeps (write_cancel k reason a)
unfolding write_cancel
write_cancel-Keeps k reason a = search (keeping, cancel_rows-Keeps, broadcast-Keeps) depth 8
