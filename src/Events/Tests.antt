-- ===== src/Events/Tests.antt =====
-- Receivers that post while they run, and receivers that do not.
use rune_old.Base.{ℕ, zero, suc, ◌+◌, ◌<◌, ◌≡◌, refl, List, [], ◌∷◌, ◌++◌, arith, ok}
use rune_old.Events.{input_key, Event, SystemEvents, update, deliver, drain, post_event}
use rune_old.Events.Delivery.{total, Lighter, Drains, update_ends}

abbrev event : ℕ → Event
event n = record {
  type = input_key;
  context = n;
  payload = record { word0 = 0; word1 = 0; word2 = 0; word3 = 0 };
}

abbrev smaller : ℕ → List Event
smaller zero = []
smaller (suc n) = event n ∷ []

-- Counts the events, and posts one for a smaller context.
abbrev countdown : ℕ → Event → ℕ → ℕ × List Event
countdown f msg w = (w + 1, smaller msg.context)

abbrev system : SystemEvents ℕ ℕ
system = record { receivers = 0 ∷ []; messages = event 2 ∷ event 1 ∷ []; world = 0 }

abbrev weight : Event → ℕ
weight msg = suc msg.context

countdown-Lighter : Lighter countdown (0 ∷ []) weight
countdown-Lighter msg w = lighter msg.context
  where
    lighter : (n : ℕ) → total countdown (0 ∷ []) weight (smaller n ++ []) < suc n
    lighter zero = omega arith
    lighter (suc m) = omega arith

update_ends_example :
    (w : ℕ) × (update countdown 5 system ≡ ok (record system { messages = []; world = w }))
    × Drains countdown system.receivers system.messages system.world w
update_ends_example = update_ends countdown weight 5 system countdown-Lighter (omega arith)

abbrev record_context : ℕ → Event → List ℕ → List ℕ × List Event
record_context f msg w = ((f + msg.context) ∷ w, [])

abbrev recorder : SystemEvents ℕ (List ℕ)
recorder = record { receivers = 10 ∷ 20 ∷ []; messages = event 1 ∷ []; world = [] }

update-recorder :
    update record_context 2 (post_event (event 2) recorder)
    ≡ ok (record recorder { messages = []; world = 22 ∷ 12 ∷ 21 ∷ 11 ∷ [] })
unfolding update post_event drain deliver
update-recorder = refl
