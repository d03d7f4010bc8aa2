-- ===== src/Platform/Tests.antt =====
-- Two keys, a gamepad, and two resizes.
use rune_old.Base.{
  ℕ, ◌≡◌, refl, true, false, not, some, List, [], ◌∷◌, ◌==◌, arith, map, codes, replicate,
  get_elem?, ok,
}
use rune_old.Events.{Event, SystemEvents, update}
use rune_old.Events.Delivery.{each_event}
use rune_old.Platform.{Glfw, new_platform, is_gamepad_button_down, get_gamepad_axis_state}
use rune_old.Platform.Input.{gamepad_reads}
use rune_old.Platform.Keys.{
  gamepad_two, gamepad_code, pad_d_pad_left, pad_code, axis_right_trigger, axis_code,
}
use rune_old.Platform.Resize.{event_of, window_resizes, update-window_resizes}

-- Nothing is pressed on it, and its axes are at 7.
abbrev glfw : Glfw ℕ
glfw = record {
  release = 0;
  init_succeeds = λ _. true;
  get_time = λ _. 0;
  new_window = λ _. 1;
  should_close = λ _ _. false;
  window_size_of = λ _ _. (640, 480);
  framebuffer_size_of = λ _ _. (640, 480);
  window_pos_of = λ _ _. (0, 0);
  primary_monitor = λ _. 1;
  video_mode = λ _ _. record { width = 640; height = 480; refresh_rate = 60 };
  key_name = λ _. codes "w";
  key_state = λ _ _ _. 0;
  mouse_button_state = λ _ _ _. 0;
  cursor_pos = λ _ _. (0, 0);
  joystick_is_gamepad = λ _ _. true;
  gamepad_name = λ _ _. codes "pad";
  gamepad_state = λ _ _. record { buttons = replicate 15 0; axes = replicate 6 7 };
}

gamepad_reads_example :
    ((b : ℕ) × (get_elem?
          (glfw.gamepad_state [] (gamepad_code gamepad_two)).buttons
          (pad_code pad_d_pad_left)
        ≡ some b)
      × (is_gamepad_button_down glfw gamepad_two pad_d_pad_left new_platform
          ≡ ok (not (b == glfw.release))))
    × ((x : ℕ) × (get_elem?
            (glfw.gamepad_state [] (gamepad_code gamepad_two)).axes
            (axis_code axis_right_trigger)
          ≡ some x)
        × (get_gamepad_axis_state glfw gamepad_two axis_right_trigger new_platform ≡ ok x))
gamepad_reads_example =
    gamepad_reads glfw gamepad_two pad_d_pad_left axis_right_trigger new_platform (λ _ _. refl)
      (λ _ _. refl)

abbrev widths : ℕ → Event → List ℕ → List ℕ × List Event
widths f msg w = (msg.payload.word0 ∷ w, [])

abbrev listening : SystemEvents ℕ (List ℕ)
listening = record { receivers = 0 ∷ []; messages = []; world = [] }

update-window_resizes_example :
    update widths 2 (window_resizes ((1, 640, 480) ∷ (1, 800, 600) ∷ []) listening)
    ≡ ok (record listening {
      messages = [];
      world =
          each_event widths listening.receivers
            (map event_of ((1, 640, 480) ∷ (1, 800, 600) ∷ []))
            (each_event widths listening.receivers listening.messages listening.world);
    })
update-window_resizes_example =
    update-window_resizes widths 2 ((1, 640, 480) ∷ (1, 800, 600) ∷ []) listening (λ _ _ _. refl)
      (omega arith)
