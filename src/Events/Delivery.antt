-- ===== src/Events/Delivery.antt =====
-- What `update` delivers, and that it ends.
use rune_old.Base.{
  ℕ, zero, suc, ◌+◌, ◌≤◌, ◌<◌, ◌≡◌, refl, List, [], ◌∷◌, ◌++◌, append-nil, append_assoc, arith, ok,
  length, length-append, ap,
}
use rune_old.Events.{Event, SystemEvents, deliver, drain, update, post_event}

module _ {R W : Type 0} (react : R → Event → W → W × List Event) where
  -- Receivers in the order of registration, for one event: the state and the events posted.
  abbrev pub all_react : List R → Event → W → W × List Event
  all_react [] msg w = (w, [])
  all_react (f ∷ fs) msg w =
      let (w', posted) = react f msg w in
      let (w'', more) = all_react fs msg w' in (w'', posted ++ more)

  deliver-all_react :
      (fs : List R) (msg : Event) (queue : List Event) (w : W)
      → deliver react fs msg queue w ≡ (queue ++ (all_react fs msg w).1, (all_react fs msg w).0)
  unfolding deliver
  deliver-all_react [] msg queue w = rw append-nil
  deliver-all_react (f ∷ fs) msg queue w =
      rw (deliver-all_react fs msg (queue ++ (react f msg w).1) (react f msg w).0, append_assoc)

  module _ (fs : List R) where
    -- The events of a queue are handed out one by one from the front, each to every receiver, and
    -- what the receivers post stands behind all that was waiting.
    pub data Drains : List Event → W → W → Type 0 where
      done : {w : W} → Drains [] w w
      front :
          {msg : Event} {queue : List Event} {w w' : W}
          → Drains (queue ++ (all_react fs msg w).1) (all_react fs msg w).0 w'
          → Drains (msg ∷ queue) w w'

  module _ (fs : List R) (weight : Event → ℕ) where
    abbrev pub total : List Event → ℕ
    total [] = 0
    total (msg ∷ queue) = weight msg + total queue

    total-append : (xs ys : List Event) → total (xs ++ ys) ≡ total xs + total ys
    total-append [] ys = omega arith
    total-append (x ∷ xs) ys = omega (arith, total-append xs ys)

    -- What all receivers post for an event weighs less than the event.
    abbrev pub Lighter : Type 0
    Lighter = (msg : Event) (w : W) → total (all_react fs msg w).1 < weight msg

    total_falls :
        (msg : Event) (queue : List Event) (w : W) (fuel : ℕ)
        → total (all_react fs msg w).1 < weight msg
        → weight msg + total queue ≤ suc fuel
        → total (queue ++ (all_react fs msg w).1) ≤ fuel
    total_falls msg queue w fuel h k = omega (arith, total-append queue (all_react fs msg w).1)

    drain_ends :
        (fuel : ℕ) (queue : List Event) (w : W)
        → Lighter
        → total queue ≤ fuel
        → (w' : W) × (drain react fuel fs queue w ≡ ok w') × Drains fs queue w w'
    unfolding drain
    drain_ends zero [] w lighter h = (w, refl, done)
    drain_ends (suc fuel) [] w lighter h = (w, refl, done)
    drain_ends zero (msg ∷ queue) w lighter h = absurd (omega (arith, lighter msg w))
    drain_ends (suc fuel) (msg ∷ queue) w lighter h =
        let next = all_react fs msg w in
        let less = total_falls msg queue w fuel (lighter msg w) h in
        let (w', ends, drains) = drain_ends fuel (queue ++ next.1) next.0 lighter less in
        (w', rw (deliver-all_react fs msg queue w, drain) ends, front drains)

-- `update` ends if each event is heavier than all that the receivers post when they get it, with as
-- many rounds as the waiting events weigh. It leaves the queue empty and the receivers registered,
-- and the events have been delivered from the front, those that were posted meanwhile included.
pub update_ends :
    {R W : Type 0} (react : R → Event → W → W × List Event) (weight : Event → ℕ) (fuel : ℕ)
    (s : SystemEvents R W)
    → Lighter react s.receivers weight
    → total react s.receivers weight s.messages ≤ fuel
    → (w : W) × (update react fuel s ≡ ok (record s { messages = []; world = w }))
      × Drains react s.receivers s.messages s.world w
unfolding update
update_ends react weight fuel s lighter h =
    let (w, ends, drains) = drain_ends react s.receivers weight fuel s.messages s.world lighter h in
    (w, rw (ends, update), drains)

module _ {R W : Type 0} (react : R → Event → W → W × List Event) where
  -- No receiver posts an event.
  abbrev pub Quiet : Type 0
  Quiet = (f : R) (msg : Event) (w : W) → (react f msg w).1 ≡ []

  -- Each event in turn, and for each the receivers in turn.
  abbrev pub each_receiver : List R → Event → W → W
  each_receiver [] msg w = w
  each_receiver (f ∷ fs) msg w = each_receiver fs msg (react f msg w).0

  abbrev pub each_event : List R → List Event → W → W
  each_event fs [] w = w
  each_event fs (msg ∷ queue) w = each_event fs queue (each_receiver fs msg w)

  deliver-Quiet :
      (fs : List R) (msg : Event) (queue : List Event) (w : W)
      → Quiet
      → deliver react fs msg queue w ≡ (queue, each_receiver fs msg w)
  unfolding deliver
  deliver-Quiet [] msg queue w q = refl
  deliver-Quiet (f ∷ fs) msg queue w q =
      rw (q f msg w, append-nil queue) (deliver-Quiet fs msg queue (react f msg w).0 q)

  pub drain-Quiet :
      (fuel : ℕ) (fs : List R) (queue : List Event) (w : W)
      → Quiet
      → length queue ≤ fuel
      → drain react fuel fs queue w ≡ ok (each_event fs queue w)
  unfolding drain
  drain-Quiet zero fs [] w q h = refl
  drain-Quiet (suc fuel) fs [] w q h = refl
  drain-Quiet zero fs (msg ∷ queue) w q h = absurd (omega arith)
  drain-Quiet (suc fuel) fs (msg ∷ queue) w q h =
      rw (deliver-Quiet fs msg queue w q, drain)
        (drain-Quiet fuel fs queue (each_receiver fs msg w) q (omega arith))

  each_event-concat :
      (fs : List R) (queue : List Event) (msg : Event) (w : W)
      → each_event fs (queue ++ msg ∷ []) w ≡ each_receiver fs msg (each_event fs queue w)
  each_event-concat fs [] msg w = refl
  each_event-concat fs (x ∷ queue) msg w = each_event-concat fs queue msg (each_receiver fs x w)

  -- Where no receiver posts, `update` hands every waiting event, in the order of posting, to every
  -- receiver, in the order of registration, once; as many rounds as events are enough. An event that
  -- was posted last is delivered last.
  pub update-post_event :
      (fuel : ℕ) (msg : Event) (s : SystemEvents R W)
      → Quiet
      → length s.messages < fuel
      → update react fuel (post_event msg s)
        ≡ ok (record s {
          messages = [];
          world = each_receiver s.receivers msg (each_event s.receivers s.messages s.world);
        })
  unfolding update post_event
  update-post_event fuel msg s q h =
      rw
        (
          drain-Quiet fuel s.receivers (s.messages ++ msg ∷ []) s.world q
              (omega (arith, length-append s.messages (msg ∷ []))),
          update,
        )
        (ap (λ w. ok (record s { messages = []; world = w }))
          (each_event-concat s.receivers s.messages msg s.world))
