-- ===== src/Events.antt =====
-- Rune/include/rune/events/system_events.hpp and Rune/src/events/system_events.cpp: `SystemEvents`,
-- a queue of events that `update` hands to every receiver.
-- A receiver is a `std::function` of the client: a parameter says, for each receiver, event and
-- state of the rest of the program, how it changes that state and which events it posts while it
-- runs. It does not register receivers: that would invalidate the loop over them.
pub mod Delivery
mod Tests
use rune_old.Base.{ℕ, zero, suc, ◌+◌, List, [], ◌∷◌, ◌++◌, Outcome, ok, fault, out_of_fuel}

pub data EventType : Type 0 where
  window_size input_key input_button : EventType

-- The sixteen bytes of the union, as four words; its other members are views of the same bytes.
pub record Payload : Type 0 where
  pub word0 : ℕ
  pub word1 : ℕ
  pub word2 : ℕ
  pub word3 : ℕ

pub record Event : Type 0 where
  pub type : EventType
  pub context : ℕ
  pub payload : Payload

-- The value that an enumerator has.
unfoldable pub type_code : EventType → ℕ
type_code window_size = 0
type_code input_key = 1
type_code input_button = 2

-- Receivers are of a type `R`, and the state that they see and change is a `W`.
pub record SystemEvents (R W : Type 0) : Type 0 where
  pub receivers : List R
  pub messages : List Event
  pub world : W

module _ {R W : Type 0} where
  unfoldable pub register_receiver : R → SystemEvents R W → SystemEvents R W
  register_receiver f s = record s { receivers = s.receivers ++ f ∷ [] }

  unfoldable pub post_event : Event → SystemEvents R W → SystemEvents R W
  post_event msg s = record s { messages = s.messages ++ msg ∷ [] }

  module _ (react : R → Event → W → W × List Event) where
    -- The loop over the receivers, for the event at the front; events that they post go to the back.
    unfoldable pub deliver : List R → Event → List Event → W → List Event × W
    deliver [] msg queue w = (queue, w)
    deliver (f ∷ fs) msg queue w =
        let (w', posted) = react f msg w in deliver fs msg (queue ++ posted) w'

    -- The loop of `update` over the queue, which ends when the queue is empty. An event is taken off
    -- behind its delivery.
    unfoldable pub drain : ℕ → List R → List Event → W → Outcome W
    drain fuel fs [] w = ok w
    drain zero fs (msg ∷ queue) w = fault out_of_fuel
    drain (suc fuel) fs (msg ∷ queue) w =
        let next = deliver fs msg queue w in drain fuel fs next.0 next.1

    unfoldable pub update : ℕ → SystemEvents R W → Outcome (SystemEvents R W)
    update fuel s = elim (drain fuel s.receivers s.messages s.world) [
      | ok w ↦ ok (record s { messages = []; world = w })
      | fault e ↦ fault e
    ]
