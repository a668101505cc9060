-- ===== src/Deliveries/Conflicts/Resolving.antt =====
-- How the resolution of a conflict ticket ends.
use be_distribution_system_a.Prelude.{
  ℕ, Bool, true, false, Option, none, some, ◌≡◌, refl, sym, ap, ◌∙◌, List, arith, Option-cases, inl,
  inr,
}
use mathlib.Core.Path.{subst}
use be_distribution_system_a.Prelude.Table.{find_by, update_by, find_by-update_by, find_many}
use be_distribution_system_a.Deliveries.Model.{
  completed, delivered, DeliveryConflict, resolved_overridden, Delivery, DeliveryStop,
  OutboxPayload,
}
use be_distribution_system_a.Deliveries.World.{
  World, ◌>>◌, ok, find_stop, find_delivery, stop_key, delivery_key, stop_delivery,
}
use be_distribution_system_a.Deliveries.Inversion.{bind-ok}
use be_distribution_system_a.Deliveries.Service.{update_delivery}
use be_distribution_system_a.Deliveries.Completion.{finish_as}
use be_distribution_system_a.Deliveries.Stops.{set_finished}
use be_distribution_system_a.Deliveries.Conflicts.{
  stop_of, Resolution, resolve_conflict, resolve_rows, override_stop, override_evidence, upsert_pod,
  force_delivered, conflict_key, all_done, complete_if, complete_if_done, resolved_row,
}

evidence_stops :
    (z : Resolution) (k : ℕ) (p : OutboxPayload) (o : Option ℕ) (w : World)
    → ((override_evidence z k p o w).1.stops ≡ w.stops)
      × ((override_evidence z k p o w).1.deliveries ≡ w.deliveries)
      × ((override_evidence z k p o w).0 ≡ ok tt)
unfolding override_evidence upsert_pod
evidence_stops z k p none w = (refl, refl, refl)
evidence_stops z k p (some r) w = (refl, refl, refl)

force_row :
    (k now : ℕ) (w w' : World)
    → force_delivered k now w ≡ (ok tt, w')
    → (s : DeliveryStop) × (find_stop k w ≡ some s)
      × (find_stop k w' ≡ some (set_finished delivered now s))
      × (w'.deliveries ≡ w.deliveries)
unfolding force_delivered
force_row k now w w' h = elim (Option-cases (find_stop k w)) [
  | inl e ↦ cc (rw (e, force_delivered) at h)
  | inr (s, e) ↦ (
    s,
    e,
    ground (
      arith,
      find_by-update_by stop_key k k (λ _. true) (set_finished delivered now) w.stops (λ s. refl),
    ),
    ground arith,
  )
]

-- The delivery after the evaluation: completed if it is done, and as before if not.
abbrev pub Evaluated : Bool → ℕ → ℕ → World → World → Type 0
Evaluated true k now w w' =
    (d : Delivery) × (find_delivery k w ≡ some d)
    × (find_delivery k w' ≡ some (finish_as completed now d))
Evaluated false k now w w' = w'.deliveries ≡ w.deliveries

Evaluated-from :
    (b : Bool) (k now : ℕ) (u w w' : World)
    → u.deliveries ≡ w.deliveries
    → Evaluated b k now u w'
    → Evaluated b k now w w'
Evaluated-from true k now u w w' e (d, found, after) =
    (d, ap (find_by delivery_key k) (sym e) ∙ found, after)
Evaluated-from false k now u w w' e h = h ∙ e

complete_if_row :
    (b : Bool) (k now : ℕ) (w w' : World)
    → complete_if b k now w ≡ (ok tt, w')
    → Evaluated b k now w w' × (w'.stops ≡ w.stops)
unfolding update_delivery
complete_if_row false k now w w' h = (ground arith, ground arith)
complete_if_row true k now w w' h = elim (Option-cases (find_delivery k w)) [
  | inl e ↦ absurd (ground arith)
  | inr (d, e) ↦ (
    (
      d,
      e,
      ground (
        arith,
        find_by-update_by delivery_key k k (λ _. true) (finish_as completed now) w.deliveries
            (λ d. refl),
      ),
    ),
    ground arith,
  )
]

complete_if_done_row :
    (k now : ℕ) (w w' : World)
    → complete_if_done k now w ≡ (ok tt, w')
    → Evaluated (all_done (find_many stop_delivery k w'.stops)) k now w w' × (w'.stops ≡ w.stops)
unfolding complete_if_done
complete_if_done_row k now w w' h =
    let (e, same) = complete_if_row (all_done (find_many stop_delivery k w.stops)) k now w w' h in
    (
      subst
          (λ (ss : List DeliveryStop).
            Evaluated (all_done (find_many stop_delivery k ss)) k now w w')
          (sym same) e,
      same,
    )

-- The stop is delivered, and the ticket's delivery is completed exactly if all its stops are done.
abbrev pub Overridden : ℕ → ℕ → ℕ → World → World → Type 0
Overridden stop_id k now w w' =
    (s : DeliveryStop) × (find_stop stop_id w ≡ some s)
    × (find_stop stop_id w' ≡ some (set_finished delivered now s))
    × Evaluated (all_done (find_many stop_delivery k w'.stops)) k now w w'

override_stop_row :
    (z : Resolution) (c : DeliveryConflict) (stop_id : ℕ) (w w' : World)
    → override_stop z c (some stop_id) w ≡ (ok tt, w')
    → Overridden stop_id c.delivery_id z.now w w'
unfolding override_stop
override_stop_row z c stop_id w w' h =
    let o = c.client_payload.payload.receiver_name in
    let p = c.client_payload.payload in
    let last = complete_if_done c.delivery_id z.now in
    let (_, _, h₁) =
      bind-ok (override_evidence z stop_id p o) (λ _. force_delivered stop_id z.now >> last) w tt w'
        h in
    let v = (override_evidence z stop_id p o w).1 in
    let (_, f, h₂) = bind-ok (force_delivered stop_id z.now) (λ _. last) v tt w' h₁ in
    let u = (force_delivered stop_id z.now v).1 in
    let (same_stops, same_deliveries, _) = evidence_stops z stop_id p o w in
    let (s, found, moved, kept) = force_row stop_id z.now v u (ground arith) in
    let (done, still) = complete_if_done_row c.delivery_id z.now u w' h₂ in
    (
      s,
      ap (find_by stop_key stop_id) (sym same_stops) ∙ found,
      ap (find_by stop_key stop_id) still ∙ moved,
      Evaluated-from _ c.delivery_id z.now u w w' (kept ∙ same_deliveries) done,
    )

Evaluated-to :
    (b : Bool) (k now : ℕ) (w u w' : World)
    → w'.deliveries ≡ u.deliveries
    → Evaluated b k now w u
    → Evaluated b k now w w'
Evaluated-to true k now w u w' e (d, found, after) =
    (d, found, ap (find_by delivery_key k) e ∙ after)
Evaluated-to false k now w u w' e h = e ∙ h

Overridden-to :
    (stop_id k now : ℕ) (w u w' : World)
    → w'.stops ≡ u.stops
    → w'.deliveries ≡ u.deliveries
    → Overridden stop_id k now w u
    → Overridden stop_id k now w w'
Overridden-to stop_id k now w u w' p q (s, found, moved, done) = (
  s,
  found,
  ap (find_by stop_key stop_id) p ∙ moved,
  subst (λ (ss : List DeliveryStop). Evaluated (all_done (find_many stop_delivery k ss)) k now w w')
      (sym p) (Evaluated-to _ k now w u w' q done),
)

-- The database once the ticket has been updated.
abbrev ticketed : ℕ → Resolution → World → World
ticketed k z w = record w {
  conflicts = update_by conflict_key k (λ _. true) (resolved_row z) w.conflicts;
}

through_override :
    (k stop_id : ℕ) (z : Resolution) (c a : DeliveryConflict) (w w' : World)
    → z.status ≡ resolved_overridden
    → stop_of c.client_payload.payload ≡ some stop_id
    → resolve_rows k z c w ≡ (ok a, w')
    → let (r, u) = override_stop z c (some stop_id) (ticketed k z w) in
      (r ≡ ok tt) × (w'.stops ≡ u.stops) × (w'.deliveries ≡ u.deliveries)
unfolding resolve_rows
through_override k stop_id z c a w w' e n h = ground arith

-- If a ticket has been resolved with RESOLVED_OVERRIDDEN and its event names a stop, then that stop
-- is stored as DELIVERED with the time of the resolution, whatever its state was; the ticket's
-- delivery is stored as COMPLETED, whatever its state was, if all its stops are then finished and
-- one is delivered, and no delivery has changed if not.
pub resolve_conflict_overrides :
    (k stop_id : ℕ) (z : Resolution) (c a : DeliveryConflict) (w w' : World)
    → find_by conflict_key k w.conflicts ≡ some c
    → z.status ≡ resolved_overridden
    → stop_of c.client_payload.payload ≡ some stop_id
    → resolve_conflict k z w ≡ (ok a, w')
    → Overridden stop_id c.delivery_id z.now w w'
unfolding resolve_conflict
resolve_conflict_overrides k stop_id z c a w w' found e n h =
    let rows : resolve_rows k z c w ≡ (ok a, w') = ground arith in
    let (done, p, q) = through_override k stop_id z c a w w' e n rows in
    let u = (override_stop z c (some stop_id) (ticketed k z w)).1 in
    let (s, f, m, d) = override_stop_row z c stop_id (ticketed k z w) u (ground arith) in
    Overridden-to stop_id c.delivery_id z.now w u w' p q
      (s, f, m, Evaluated-from _ c.delivery_id z.now (ticketed k z w) w u refl d)
