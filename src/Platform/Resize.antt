-- ===== src/Platform/Resize.antt =====
-- Resizes of windows reach the receivers of events: `window_size_callback` and `SystemEvents::update`.
use rune_old.Base.{
  ℕ, ◌+◌, ◌%◌, ◌^◌, ◌≤◌, ◌≡◌, refl, sym, ap, ◌∙◌, List, [], ◌∷◌, ◌++◌, append-nil, append_assoc,
  map, arith, ok, length, length-append, length-map,
}
use rune_old.Events.{window_size, Event, SystemEvents, post_event, update}
use rune_old.Events.Delivery.{Quiet, each_event, each_receiver, drain-Quiet}
use rune_old.Platform.{window_size_callback}

-- A window, a width and a height.
abbrev pub Resize : Type 0
Resize = ℕ × ℕ × ℕ

-- Its event: the window as the context, and the two sizes in the first two words.
abbrev pub event_of : Resize → Event
event_of (window, width, height) = record {
  type = window_size;
  context = window;
  payload = record { word0 = width % 2 ^ 32; word1 = height % 2 ^ 32; word2 = 0; word3 = 0 };
}

module _ {R W : Type 0} where
  -- The callbacks of GLFW, one after the other.
  abbrev pub window_resizes : List Resize → SystemEvents R W → SystemEvents R W
  window_resizes [] s = s
  window_resizes (r ∷ rs) s = window_resizes rs (window_size_callback r.0 r.1 r.2 s)

  pub messages-window_resizes :
      (rs : List Resize) (s : SystemEvents R W)
      → window_resizes rs s ≡ record s { messages = s.messages ++ map event_of rs }
  unfolding window_size_callback post_event
  messages-window_resizes [] s =
      ap (λ (m : List Event). record s { messages = m }) (sym (append-nil s.messages))
  messages-window_resizes (r ∷ rs) s =
      messages-window_resizes rs (window_size_callback r.0 r.1 r.2 s)
      ∙ ap (λ (m : List Event). record s { messages = m })
          (append_assoc s.messages (event_of r ∷ []) (map event_of rs))

module _ {R W : Type 0} (react : R → Event → W → W × List Event) where
  each_event-append :
      (fs : List R) (xs ys : List Event) (w : W)
      → each_event react fs (xs ++ ys) w ≡ each_event react fs ys (each_event react fs xs w)
  each_event-append fs [] ys w = refl
  each_event-append fs (x ∷ xs) ys w = each_event-append fs xs ys (each_receiver react fs x w)

-- Where no receiver posts, the next `update` of the events hands the resizes of windows, in the
-- order in which GLFW called back, to every receiver in the order of registration, each as one event
-- with the window and its new size, behind the events that waited; as many rounds as events are
-- enough.
pub update-window_resizes :
    {R W : Type 0} (react : R → Event → W → W × List Event) (fuel : ℕ) (rs : List Resize)
    (s : SystemEvents R W)
    → Quiet react
    → length s.messages + length rs ≤ fuel
    → update react fuel (window_resizes rs s)
      ≡ ok (record s {
        messages = [];
        world =
            each_event react s.receivers
              (map event_of rs)
              (each_event react s.receivers s.messages s.world);
      })
unfolding update
update-window_resizes react fuel rs s q h =
    let posted = s.messages ++ map event_of rs in
    let enough : length posted ≤ fuel =
      omega (arith, length-append s.messages (map event_of rs), length-map rs event_of) in
    ap (update react fuel) (messages-window_resizes rs s)
    ∙ rw (update, drain-Quiet react fuel s.receivers posted s.world q enough)
        (ap (λ w. ok (record s { messages = []; world = w }))
          (each_event-append react s.receivers s.messages (map event_of rs) s.world))
