-- ===== src/Deliveries/Evolution.antt =====
-- How the rows of deliveries and stops may change: the transition diagrams of their states, and
-- the relation between the database before and after a request.
pub mod Rules
pub mod Completion
pub mod Stops
pub mod Service
pub mod Pod
pub mod Requests
use be_distribution_system_a.Prelude.{
  ℕ, Bool, true, false, Option, none, some, ◌≡◌, refl, ◌∙◌, sym, arith,
}
use be_distribution_system_a.Deliveries.Model.{
  DeliveryStatus, draft, assigned, accepted, completed, cancelled, StopStatus, pending, arrived,
  unloading, delivered, skipped, is_terminal, is_finished, Delivery, DeliveryStop,
}
use be_distribution_system_a.Deliveries.World.{World, find_delivery, find_stop}

infix 40 ◌⟶◌ ◌⟶*◌ ◌⇝◌ ◌⇝*◌
pub data ◌⟶◌ : DeliveryStatus → DeliveryStatus → Type 0 where
  assign : draft ⟶ assigned
  reassign : assigned ⟶ assigned
  accept : assigned ⟶ accepted
  start : accepted ⟶ DeliveryStatus.en_route
  complete : DeliveryStatus.en_route ⟶ completed
  fail : DeliveryStatus.en_route ⟶ DeliveryStatus.failed
  cancel : {s : DeliveryStatus} → is_terminal s ≡ false → s ⟶ cancelled

pub data ◌⟶*◌ : DeliveryStatus → DeliveryStatus → Type 0 where
  stay : {s : DeliveryStatus} → s ⟶* s
  go : {s t u : DeliveryStatus} → s ⟶ t → t ⟶* u → s ⟶* u

pub data ◌⇝◌ : StopStatus → StopStatus → Type 0 where
  depart : pending ⇝ StopStatus.en_route
  arrive : StopStatus.en_route ⇝ arrived
  arrive_early : pending ⇝ arrived
  unload : arrived ⇝ unloading
  deliver : unloading ⇝ delivered
  deliver_early : arrived ⇝ delivered
  fail_en_route : StopStatus.en_route ⇝ StopStatus.failed
  fail_arrived : arrived ⇝ StopStatus.failed
  fail_unloading : unloading ⇝ StopStatus.failed
  skip : pending ⇝ skipped

pub data ◌⇝*◌ : StopStatus → StopStatus → Type 0 where
  rest : {s : StopStatus} → s ⇝* s
  move : {s t u : StopStatus} → s ⇝ t → t ⇝* u → s ⇝* u

pub ⟶*_trans : {s t u : DeliveryStatus} → s ⟶* t → t ⟶* u → s ⟶* u
⟶*_trans stay q = q
⟶*_trans (go e p) q = go e (⟶*_trans p q)

pub ⇝*_trans : {s t u : StopStatus} → s ⇝* t → t ⇝* u → s ⇝* u
⇝*_trans rest q = q
⇝*_trans (move e p) q = move e (⇝*_trans p q)

-- No edge leaves a terminal state.
terminal_end : {s t : DeliveryStatus} → s ⟶ t → is_terminal s ≡ true → ⊥
terminal_end assign h = cc
terminal_end reassign h = cc
terminal_end accept h = cc
terminal_end start h = cc
terminal_end complete h = cc
terminal_end fail h = cc
terminal_end (cancel n) h = cc

pub terminal_stays : {s t : DeliveryStatus} → s ⟶* t → is_terminal s ≡ true → s ≡ t
terminal_stays stay h = refl
terminal_stays (go e p) h = absurd (terminal_end e h)

finished_end : {s t : StopStatus} → s ⇝ t → is_finished s ≡ true → ⊥
finished_end depart h = cc
finished_end arrive h = cc
finished_end arrive_early h = cc
finished_end unload h = cc
finished_end deliver h = cc
finished_end deliver_early h = cc
finished_end fail_en_route h = cc
finished_end fail_arrived h = cc
finished_end fail_unloading h = cc
finished_end skip h = cc

pub finished_stays : {s t : StopStatus} → s ⇝* t → is_finished s ≡ true → s ≡ t
finished_stays rest h = refl
finished_stays (move e p) h = absurd (finished_end e h)

-- Each row is still there, its state has moved along the diagram only, a delivery in a terminal
-- state is as it was, and so is every stop of such a delivery.
pub record Evolves (w w' : World) : Type 0 where
  pub delivery_moves :
      (k : ℕ) (d : Delivery)
      → find_delivery k w ≡ some d
      → (d' : Delivery) × (find_delivery k w' ≡ some d') × (d.status ⟶* d'.status)
  pub delivery_closed :
      (k : ℕ) (d : Delivery)
      → find_delivery k w ≡ some d
      → is_terminal d.status ≡ true
      → find_delivery k w' ≡ some d
  pub stop_moves :
      (k : ℕ) (s : DeliveryStop)
      → find_stop k w ≡ some s
      → (s' : DeliveryStop) × (find_stop k w' ≡ some s')
        × (s'.delivery_id ≡ s.delivery_id)
        × (s.status ⇝* s'.status)
  pub stop_frozen :
      (k : ℕ) (s : DeliveryStop) (d : Delivery)
      → find_stop k w ≡ some s
      → find_delivery s.delivery_id w ≡ some d
      → is_terminal d.status ≡ true
      → find_stop k w' ≡ some s

-- Nothing about the rows of deliveries and stops has changed.
pub Evolves-same : (w w' : World) → w'.deliveries ≡ w.deliveries → w'.stops ≡ w.stops → Evolves w w'
Evolves-same w w' p q = record {
  delivery_moves = λ k d h. (d, rw p h, stay);
  delivery_closed = λ k d h t. rw p h;
  stop_moves = λ k s h. (s, rw q h, refl, rest);
  stop_frozen = λ k s d h g t. rw q h;
}

pub Evolves-trans : (u v w : World) → Evolves u v → Evolves v w → Evolves u w
Evolves-trans u v w e f = record {
  delivery_moves = λ k d h.
      let (d₁, h₁, p₁) = e.delivery_moves k d h in
      let (d₂, h₂, p₂) = f.delivery_moves k d₁ h₁ in (d₂, h₂, ⟶*_trans p₁ p₂);
  delivery_closed = λ k d h t. f.delivery_closed k d (e.delivery_closed k d h t) t;
  stop_moves = λ k s h.
      let (s₁, h₁, i₁, p₁) = e.stop_moves k s h in
      let (s₂, h₂, i₂, p₂) = f.stop_moves k s₁ h₁ in (s₂, h₂, i₂ ∙ i₁, ⇝*_trans p₁ p₂);
  stop_frozen = λ k s d h g t.
      f.stop_frozen k s d (e.stop_frozen k s d h g t) (e.delivery_closed s.delivery_id d g t) t;
}
