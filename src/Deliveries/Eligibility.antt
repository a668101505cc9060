-- ===== src/Deliveries/Eligibility.antt =====
-- When a delivery is completed, by deliveries.service.ts: the evaluation of its stops against an
-- independent description, and what completeDelivery and cancelDelivery then answer and write.
use be_distribution_system_a.Prelude.{
  ℕ, Bool-cases, Bool, true, false, some, ◌≡◌, ◌≢◌, ◌↔◌, refl, inl, inr, List, [], ◌∷◌, All, any,
  arith, if◌then◌else◌,
}
use be_distribution_system_a.Prelude.Table.{IsUnique, find_by-update_by, count_by_unique}
use be_distribution_system_a.Deliveries.Model.{
  DeliveryStatus, completed, delivered, is_finished, is_terminal, DeliveryActor, Delivery,
  DeliveryStop,
}
use be_distribution_system_a.Deliveries.World.{
  World, Result, ok, err, unfinished_stops_remain, terminal_state_cannot_be_cancelled,
  invalid_state_transition, delivery_key, find_delivery,
}
use be_distribution_system_a.Deliveries.Service.{get_delivery_by_id, is_forbidden, claim_delivery}
use be_distribution_system_a.Deliveries.Completion.{
  Evaluation, not_completed, eligible, unfinished_stops, is_delivered, evaluate_stops,
  evaluate_delivery_completion, is_en_route, finish_as, complete_target, complete_rows,
  write_complete, complete_found, complete_delivery, Completed, already_completed, updated_row,
  is_operational, set_cancelled, cancel_rows, write_cancel, cancel_delivery,
}

abbrev pub IsFinished : DeliveryStop → Type 0
IsFinished s = is_finished s.status ≡ true

-- Some stop of the list has been delivered.
pub data HasDelivered : List DeliveryStop → Type 0 where
  here : {s : DeliveryStop} {ss : List DeliveryStop} → s.status ≡ delivered → HasDelivered (s ∷ ss)
  there : {s : DeliveryStop} {ss : List DeliveryStop} → HasDelivered ss → HasDelivered (s ∷ ss)

unfinished-nil : (ss : List DeliveryStop) → (unfinished_stops ss ≡ []) ↔ All IsFinished ss
unfolding unfinished_stops
unfinished-nil [] = (λ h. tt, λ h. refl)
unfinished-nil (s ∷ ss) =
    (λ h. ground (arith, (unfinished-nil ss).0), λ h. ground (arith, (unfinished-nil ss).1 h.1))

any-HasDelivered : (ss : List DeliveryStop) → any is_delivered ss ≡ true → HasDelivered ss
any-HasDelivered [] h = cc
any-HasDelivered (s ∷ ss) h = elim (Bool-cases (is_delivered s)) [
  | inl e ↦ here (ground arith)
  | inr e ↦ there (any-HasDelivered ss (rw e at h))
]

HasDelivered-any : {ss : List DeliveryStop} → HasDelivered ss → any is_delivered ss ≡ true
HasDelivered-any (here e) = ground arith
HasDelivered-any {ss = s ∷ ss} (there h) = ground (arith, HasDelivered-any h)

evaluate_eligible :
    (s : DeliveryStop) (ss : List DeliveryStop)
    → unfinished_stops (s ∷ ss) ≡ []
    → evaluate_stops (s ∷ ss)
      ≡ eligible (if any is_delivered (s ∷ ss) then completed else DeliveryStatus.failed)
unfolding evaluate_stops
evaluate_eligible s ss h = ground arith

evaluate_all_finished :
    (ss : List DeliveryStop) (t : DeliveryStatus)
    → evaluate_stops ss ≡ eligible t
    → (unfinished_stops ss ≡ [])
      × (t ≡ (if any is_delivered ss then completed else DeliveryStatus.failed))
      × (ss ≢ [])
unfolding evaluate_stops
evaluate_all_finished [] t h = cc
evaluate_all_finished (s ∷ ss) t h = ground arith

completed_only :
    (ss : List DeliveryStop)
    → evaluate_stops ss ≡ eligible completed
    → All IsFinished ss × HasDelivered ss
completed_only ss h =
    let (none_open, target, _) = evaluate_all_finished ss completed h in
    ((unfinished-nil ss).0 none_open, any-HasDelivered ss (ground arith))

completed_if :
    (ss : List DeliveryStop)
    → All IsFinished ss
    → HasDelivered ss
    → evaluate_stops ss ≡ eligible completed
completed_if [] a h = absurd (no_stop h)
  where
    no_stop : HasDelivered [] → ⊥
    no_stop p = cc (HasDelivered-any p)
completed_if (s ∷ ss) a h =
    rw (evaluate_eligible s ss ((unfinished-nil (s ∷ ss)).1 a)) (rw (HasDelivered-any h))

failed_only :
    (ss : List DeliveryStop)
    → evaluate_stops ss ≡ eligible DeliveryStatus.failed
    → (ss ≢ []) × All IsFinished ss × ¬ HasDelivered ss
failed_only ss h =
    let (none_open, target, some_stop) = evaluate_all_finished ss DeliveryStatus.failed h in
    (
      some_stop,
      (unfinished-nil ss).0 none_open,
      λ p. let delivered_one : any is_delivered ss ≡ true = HasDelivered-any p in ground arith,
    )

failed_if :
    (ss : List DeliveryStop)
    → ss ≢ []
    → All IsFinished ss
    → ¬ HasDelivered ss
    → evaluate_stops ss ≡ eligible DeliveryStatus.failed
failed_if [] n a h = absurd (n refl)
failed_if (s ∷ ss) n a h = elim (Bool-cases (any is_delivered (s ∷ ss))) [
  | inl e ↦ absurd (h (any-HasDelivered (s ∷ ss) e))
  | inr e ↦ rw (evaluate_eligible s ss ((unfinished-nil (s ∷ ss)).1 a)) (rw e)
]

-- The evaluation says COMPLETED exactly when every stop is finished and one was delivered, and
-- FAILED exactly when there are stops, all of them are finished and none was delivered.
pub evaluate_stops_lem :
    (ss : List DeliveryStop)
    → ((evaluate_stops ss ≡ eligible completed) ↔ (All IsFinished ss × HasDelivered ss))
      × ((evaluate_stops ss ≡ eligible DeliveryStatus.failed)
          ↔ ((ss ≢ []) × All IsFinished ss × ¬ HasDelivered ss))
evaluate_stops_lem ss = (
  (completed_only ss, λ h. completed_if ss h.0 h.1),
  (failed_only ss, λ h. failed_if ss h.0 h.1 h.2),
)

-- What `completeDelivery` answers and leaves for a delivery `d` on its way, by the evaluation.
abbrev pub Settles : Evaluation → ℕ → ℕ → Delivery → World → Result Completed × World → Type 0
Settles (eligible t) k now d w r =
    (r.0 ≡ ok (updated_row (finish_as t now d))) × (find_delivery k r.1 ≡ some (finish_as t now d))
Settles (not_completed stops) k now d w r = r ≡ (err (unfinished_stops_remain stops), w)

-- The same by the state in which the delivery is found.
abbrev pub CompletionContract :
    DeliveryStatus → Evaluation → ℕ → ℕ → Delivery → World → Result Completed × World → Type 0
CompletionContract completed e k now d w r = r ≡ (ok (already_completed k), w)
CompletionContract DeliveryStatus.en_route e k now d w r = Settles e k now d w r
CompletionContract _ e k now d w r = r ≡ (err invalid_state_transition, w)

-- What `cancelDelivery` answers and leaves, by whether the delivery is in a terminal state.
abbrev pub CancelContract : Bool → ℕ → Delivery → World → Result Delivery × World → Type 0
CancelContract true k d w r = r ≡ (err terminal_state_cannot_be_cancelled, w)
CancelContract false k d w r =
    (r.0 ≡ ok (set_cancelled d))
    × (find_delivery k r.1 ≡ some (set_cancelled d))
    × (r.1.stops ≡ w.stops)

module _ (k : ℕ) (actor : DeliveryActor) (now : ℕ) (w : World) (d : Delivery)
    (unique : IsUnique delivery_key w.deliveries) (found : find_delivery k w ≡ some d)
    (allowed : is_forbidden d actor ≡ false) where
  settles :
      (e : Evaluation)
      → d.status ≡ DeliveryStatus.en_route
      → evaluate_delivery_completion k w ≡ e
      → Settles e k now d w (complete_delivery k actor now w)
  unfolding complete_delivery complete_found write_complete complete_rows complete_target
      claim_delivery get_delivery_by_id
  settles (not_completed stops) on_way h = ground arith
  settles (eligible t) on_way h = ground (
    arith,
    count_by_unique delivery_key k is_en_route w.deliveries unique,
    find_by-update_by delivery_key k k is_en_route (finish_as t now) w.deliveries (λ d. refl),
  )

  complete_by_status :
      (s : DeliveryStatus)
      → d.status ≡ s
      → CompletionContract s
          (evaluate_delivery_completion k w)
          k
          now
          d
          w
          (complete_delivery k actor now w)
  unfolding complete_delivery complete_found get_delivery_by_id
  complete_by_status DeliveryStatus.en_route e = settles _ e refl
  complete_by_status completed e = ground arith
  complete_by_status _ e = ground arith

  -- When ids are unique, for a delivery that is found and that the actor may see: a completed one
  -- is reported again; one on its way is settled by the evaluation of its stops, which is either
  -- refused with the unfinished stops and no write, or answered and stored with the target state
  -- and the time; in any other state the request is refused and nothing is written.
  pub complete_delivery_lem :
      CompletionContract d.status
        (evaluate_delivery_completion k w)
        k
        now
        d
        w
        (complete_delivery k actor now w)
  complete_delivery_lem = complete_by_status d.status refl

  cancel_by_state :
      (reason : ℕ) (b : Bool)
      → is_terminal d.status ≡ b
      → CancelContract b k d w (cancel_delivery k reason actor w)
  unfolding cancel_delivery write_cancel cancel_rows claim_delivery get_delivery_by_id
  cancel_by_state reason true e =
      ground (arith, count_by_unique delivery_key k is_operational w.deliveries unique)
  cancel_by_state reason false e = ground (
    arith,
    count_by_unique delivery_key k is_operational w.deliveries unique,
    find_by-update_by delivery_key k k is_operational set_cancelled w.deliveries (λ d. refl),
  )

  -- When ids are unique, for a delivery that is found and that the actor may see: a terminal one
  -- is refused and nothing is written; any other, a DRAFT one included, is stored and answered as
  -- CANCELLED, and no stop changes.
  pub cancel_delivery_lem :
      (reason : ℕ) → CancelContract (is_terminal d.status) k d w (cancel_delivery k reason actor w)
  cancel_delivery_lem reason = cancel_by_state reason (is_terminal d.status) refl
