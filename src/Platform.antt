-- ===== src/Platform.antt =====
-- Rune/include/rune/platform/system_platform_glfw.hpp and Rune/src/platform/system_platform_glfw.cpp:
-- `SystemPlatformGLFW`. GLFW is a parameter, which answers by the calls made so far; floats are a
-- parameter, and an `int` is its word of 32 bits. The native handles of the display and of a window, which the compiler's target picks,
-- are left out.
pub mod Keys
pub mod Codes
pub mod Input
pub mod Resize
pub mod Restart
mod Tests
use rune_old.Base.{
  ℕ, ◌*◌, ◌%◌, ◌^◌, Bool, true, false, not, Option, none, some, List, [], ◌∷◌, ◌++◌, ◌==◌,
  if◌then◌else◌, get_elem?, Bytes, Outcome, ok, fault, ◌>>=◌, ◌>>◌, or_fault, rune_assert,
  out_of_bounds, exception_thrown,
}
use rune_old.Events.{Event, window_size, SystemEvents, post_event}
use rune_old.Platform.Keys.{
  Key, key_code, Button, button_code, Gamepad, gamepad_code, GamepadButton, pad_code, GamepadAxis,
  axis_code,
}

-- The calls of GLFW that change its state; a new window is an argument, and a window is put on a
-- monitor at the position 0, 0.
pub data GlfwCall : Type 0 where
  glfw_init glfw_poll_events glfw_terminate : GlfwCall
  glfw_create_window : ℕ → ℕ → ℕ → Bytes → GlfwCall
  glfw_destroy_window glfw_show_window glfw_hide_window : ℕ → GlfwCall
  glfw_set_window_size glfw_set_window_pos : ℕ → ℕ → ℕ → GlfwCall
  glfw_set_window_title : ℕ → Bytes → GlfwCall
  glfw_set_window_monitor : ℕ → ℕ → ℕ → ℕ → ℕ → GlfwCall

pub record GamepadState (F : Type 0) : Type 0 where
  pub buttons : List ℕ
  pub axes : List F

pub record VideoMode : Type 0 where
  pub width : ℕ
  pub height : ℕ
  pub refresh_rate : ℕ

-- What GLFW answers after the calls so far.
pub record Glfw (F : Type 0) : Type 0 where
  pub release : ℕ
  pub init_succeeds : List GlfwCall → Bool
  pub get_time : List GlfwCall → F
  pub new_window : List GlfwCall → ℕ
  pub should_close : List GlfwCall → ℕ → Bool
  pub window_size_of : List GlfwCall → ℕ → ℕ × ℕ
  pub framebuffer_size_of : List GlfwCall → ℕ → ℕ × ℕ
  pub window_pos_of : List GlfwCall → ℕ → ℕ × ℕ
  pub primary_monitor : List GlfwCall → ℕ
  pub video_mode : List GlfwCall → ℕ → VideoMode
  pub key_name : ℕ → Bytes
  pub key_state : List GlfwCall → ℕ → ℕ → ℕ
  pub mouse_button_state : List GlfwCall → ℕ → ℕ → ℕ
  pub cursor_pos : List GlfwCall → ℕ → F × F
  pub joystick_is_gamepad : List GlfwCall → ℕ → Bool
  pub gamepad_name : List GlfwCall → ℕ → Bytes
  pub gamepad_state : List GlfwCall → ℕ → GamepadState F

pub record Platform : Type 0 where
  pub glfw_initialised : Bool
  pub calls : List GlfwCall

abbrev pub glfw_call : GlfwCall → Platform → Platform
glfw_call c s = record s { calls = s.calls ++ c ∷ [] }

abbrev pub new_platform : Platform
new_platform = record { glfw_initialised = false; calls = [] }

-- The words of the payload are the two 32-bit integers.
abbrev pub size_event : ℕ → ℕ → ℕ → Event
size_event window width height = record {
  type = window_size;
  context = window;
  payload = record { word0 = width % 2 ^ 32; word1 = height % 2 ^ 32; word2 = 0; word3 = 0 };
}

-- The callback that is set for every window.
unfoldable pub window_size_callback :
    {R W : Type 0} → ℕ → ℕ → ℕ → SystemEvents R W → SystemEvents R W
window_size_callback window width height = post_event (size_event window width height)

module _ {F : Type 0} (g : Glfw F) where
  unfoldable pub initialise : Bool → Platform → Outcome Platform
  initialise debug s = do
    rune_assert debug (not s.glfw_initialised)
    let started = glfw_call glfw_init s
    if g.init_succeeds s.calls
        then ok (record started { glfw_initialised = true })
        else fault exception_thrown

  abbrev pub update : Platform → Platform
  update = glfw_call glfw_poll_events

  -- The flag is set here once more, and not cleared.
  unfoldable pub shutdown : Platform → Platform
  shutdown s = record (glfw_call glfw_terminate s) { glfw_initialised = true }

  abbrev pub get_time : Platform → F
  get_time s = g.get_time s.calls

  unfoldable pub create_window : ℕ → ℕ → Bytes → Platform → ℕ × Platform
  create_window width height title s =
      let window = g.new_window s.calls in
      (window, glfw_call (glfw_create_window window width height title) s)

  abbrev pub destroy_window : ℕ → Platform → Platform
  destroy_window window = glfw_call (glfw_destroy_window window)

  abbrev pub show_window : ℕ → Platform → Platform
  show_window window = glfw_call (glfw_show_window window)

  abbrev pub hide_window : ℕ → Platform → Platform
  hide_window window = glfw_call (glfw_hide_window window)

  abbrev pub has_window_requested_close : ℕ → Platform → Bool
  has_window_requested_close window s = g.should_close s.calls window

  abbrev pub get_window_size : ℕ → Platform → ℕ × ℕ
  get_window_size window s = g.window_size_of s.calls window

  abbrev pub get_window_size_pixels : ℕ → Platform → ℕ × ℕ
  get_window_size_pixels window s = g.framebuffer_size_of s.calls window

  abbrev pub get_window_position : ℕ → Platform → ℕ × ℕ
  get_window_position window s = g.window_pos_of s.calls window

  abbrev pub set_window_size : ℕ → ℕ → ℕ → Platform → Platform
  set_window_size window width height = glfw_call (glfw_set_window_size window width height)

  abbrev pub set_window_position : ℕ → ℕ → ℕ → Platform → Platform
  set_window_position window x y = glfw_call (glfw_set_window_pos window x y)

  abbrev pub set_window_title : ℕ → Bytes → Platform → Platform
  set_window_title window title = glfw_call (glfw_set_window_title window title)

  unfoldable pub set_window_fullscreen : ℕ → Platform → Platform
  set_window_fullscreen window s =
      let monitor = g.primary_monitor s.calls in
      let mode = g.video_mode s.calls monitor in
      glfw_call (glfw_set_window_monitor window monitor mode.width mode.height mode.refresh_rate) s

  unfoldable pub get_key_name : Key → Bytes
  get_key_name key = g.key_name (key_code key)

  unfoldable pub is_key_down : ℕ → Key → Platform → Bool
  is_key_down window key s = not (g.key_state s.calls window (key_code key) == g.release)

  unfoldable pub is_mouse_button_down : ℕ → Button → Platform → Bool
  is_mouse_button_down window button s =
      not (g.mouse_button_state s.calls window (button_code button) == g.release)

  abbrev pub get_cursor_position : {I : Type 0} → (F → I) → ℕ → Platform → I × I
  get_cursor_position truncate window s =
      let p = g.cursor_pos s.calls window in (truncate p.0, truncate p.1)

  unfoldable pub is_gamepad_present : Gamepad → Platform → Bool
  is_gamepad_present gamepad s = g.joystick_is_gamepad s.calls (gamepad_code gamepad)

  unfoldable pub get_gamepad_name : Gamepad → Platform → Bytes
  get_gamepad_name gamepad s = g.gamepad_name s.calls (gamepad_code gamepad)

  unfoldable pub is_gamepad_button_down : Gamepad → GamepadButton → Platform → Outcome Bool
  is_gamepad_button_down gamepad button s = do
    let state = g.gamepad_state s.calls (gamepad_code gamepad)
    b ← or_fault (get_elem? state.buttons (pad_code button)) out_of_bounds
    ok (not (b == g.release))

  unfoldable pub get_gamepad_axis_state : Gamepad → GamepadAxis → Platform → Outcome F
  get_gamepad_axis_state gamepad axis s =
      let state = g.gamepad_state s.calls (gamepad_code gamepad) in
      or_fault (get_elem? state.axes (axis_code axis)) out_of_bounds
