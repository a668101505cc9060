-- ===== src/Deliveries/Conflicts/Evidence.antt =====
-- What happens to the events of a driver who was offline while the delivery was cancelled, and to
-- the tickets that are opened for them.
use be_distribution_system_a.Prelude.{
  ℕ, suc, some, ◌≡◌, refl, ◌∙◌, ap, List, [], ◌∷◌, ◌++◌, All, arith, map,
}
use mathlib.Core.List.{append_assoc, append-nil, map-append}
use be_distribution_system_a.Deliveries.Model.{cancelled, OutboxEventItem, DeliveryConflict}
use be_distribution_system_a.Deliveries.World.{World, ok}
use be_distribution_system_a.Deliveries.Stops.{LoadedStop, load_stop}
use be_distribution_system_a.Deliveries.Conflicts.{
  SyncContext, SyncReport, stop_of, sync_loaded, sync_event, sync_from, sync_outbox, tally,
  conflicting, new_conflict,
}

-- The event names a stop whose delivery is cancelled.
pub record IsStale (w : World) (item : OutboxEventItem) : Type 0 where
  pub stop_id : ℕ
  pub loaded : LoadedStop
  pub names : stop_of item.payload ≡ some stop_id
  pub found : load_stop stop_id w ≡ some loaded
  pub gone : loaded.delivery.status ≡ cancelled

abbrev stale_world : SyncContext → ℕ → OutboxEventItem → LoadedStop → World → World
stale_world c i item s w = record w {
  conflicts = w.conflicts ++ new_conflict (c.uuid i) s.stop.delivery_id item ∷ [];
}

stale_event :
    (c : SyncContext) (i : ℕ) (item : OutboxEventItem) (w : World) (h : IsStale w item)
    → sync_event c i item w ≡ (ok (conflicting (c.uuid i)), stale_world c i item h.loaded w)
unfolding sync_event sync_loaded
stale_event c i item w h = ground (arith, h.names, h.found, h.gone)

still-IsStale :
    (c : SyncContext) (i : ℕ) (item : OutboxEventItem) (s : LoadedStop) (w : World)
    → (items : List OutboxEventItem) → All (IsStale w) items
    → All (IsStale (stale_world c i item s w)) items
unfolding load_stop
still-IsStale c i item s w [] h = tt
still-IsStale c i item s w (x ∷ xs) h = (
  record {
    stop_id = h.0.stop_id;
    loaded = h.0.loaded;
    names = h.0.names;
    found = h.0.found;
    gone = h.0.gone;
  },
  still-IsStale c i item s w xs h.1,
)

abbrev pub evidence : DeliveryConflict → OutboxEventItem
evidence t = t.client_payload

abbrev pub event_id : OutboxEventItem → ℕ
event_id item = item.client_event_id

abbrev pub reported_id : ℕ × ℕ → ℕ
reported_id (event, ticket) = event

-- What a synchronisation of stale events leaves, from a report and a database.
pub record Preserved (items : List OutboxEventItem) (r : SyncReport) (w : World)
    (q : SyncReport × World) : Type 0 where
  pub nothing_acked : q.0.acked_ids ≡ r.acked_ids
  pub all_reported :
      map reported_id q.0.conflict_ids ≡ map reported_id r.conflict_ids ++ map event_id items
  pub evidence_kept : map evidence q.1.conflicts ≡ map evidence w.conflicts ++ items
  pub rest_unchanged : record q.1 { conflicts = w.conflicts } ≡ w

Preserved-step :
    (c : SyncContext) (i : ℕ) (item : OutboxEventItem) (items : List OutboxEventItem)
    (s : LoadedStop) (r : SyncReport) (w : World) (q : SyncReport × World)
    → Preserved items (tally item (ok (conflicting (c.uuid i))) r) (stale_world c i item s w) q
    → Preserved (item ∷ items) r w q
unfolding new_conflict
Preserved-step c i item items s r w q p = record {
  nothing_acked = p.nothing_acked;
  all_reported = p.all_reported ∙ simp (map-append, append_assoc);
  evidence_kept = p.evidence_kept ∙ simp (map-append, append_assoc);
  rest_unchanged = ap (λ (v : World). record v { conflicts = w.conflicts }) p.rest_unchanged;
}

sync_from-Preserved :
    (c : SyncContext) (i : ℕ) (items : List OutboxEventItem) (r : SyncReport) (w : World)
    → All (IsStale w) items
    → Preserved items r w (sync_from c i items r w)
unfolding sync_from
sync_from-Preserved c i [] r w h = record {
  nothing_acked = refl;
  all_reported = simp append-nil;
  evidence_kept = simp append-nil;
  rest_unchanged = refl;
}
sync_from-Preserved c i (item ∷ items) r w h =
    let s = h.0.loaded in
    rw (stale_event c i item w h.0) (
      Preserved-step c i item items s r w _ (
        sync_from-Preserved c (suc i) items _ (stale_world c i item s w)
          (still-IsStale c i item s w items h.1)))

-- If every event of an outbox is for a delivery that has been cancelled, then none of them is
-- acknowledged, each is reported as a conflict in order, the tickets that are appended keep the
-- events themselves, and nothing else in the database changes.
pub sync_stale-Preserved :
    (c : SyncContext) (items : List OutboxEventItem) (w : World)
    → All (IsStale w) items
    → Preserved items (record { acked_ids = []; conflict_ids = [] }) w (sync_outbox c items w)
unfolding sync_outbox
sync_stale-Preserved c items w h = sync_from-Preserved c 0 items _ w h
