-- ===== src/Platform/Input.antt =====
-- Reading a gamepad stays in the arrays of its state.
use rune_old.Base.{
  ℕ, zero, suc, ◌<◌, ◌≡◌, refl, true, not, some, List, [], ◌∷◌, ◌==◌, arith, ltb, ltb→lt, length,
  get_elem?, ok,
}
use rune_old.Platform.{GlfwCall, Glfw, Platform, is_gamepad_button_down, get_gamepad_axis_state}
use rune_old.Platform.Keys.{
  Gamepad, gamepad_code, GamepadButton, pad_code, pad_a, pad_b, pad_x, pad_y, pad_left_bumper,
  pad_right_bumper, pad_back, pad_start, pad_guide, pad_left_thumb, pad_right_thumb, pad_d_pad_up,
  pad_d_pad_right, pad_d_pad_down, pad_d_pad_left, GamepadAxis, axis_code, axis_left_x, axis_left_y,
  axis_right_x, axis_right_y, axis_left_trigger, axis_right_trigger,
}

get_elem?-inside :
    {A : Type 0} (xs : List A) (i : ℕ) → i < length xs → (x : A) × (get_elem? xs i ≡ some x)
get_elem?-inside [] i h = absurd (omega arith)
get_elem?-inside (x ∷ xs) zero h = (x, refl)
get_elem?-inside (x ∷ xs) (suc i) h = get_elem?-inside xs i (omega arith)

pad_code-inside : (b : GamepadButton) → ltb (pad_code b) 15 ≡ true
unfolding pad_code
pad_code-inside pad_a = refl
pad_code-inside pad_b = refl
pad_code-inside pad_x = refl
pad_code-inside pad_y = refl
pad_code-inside pad_left_bumper = refl
pad_code-inside pad_right_bumper = refl
pad_code-inside pad_back = refl
pad_code-inside pad_start = refl
pad_code-inside pad_guide = refl
pad_code-inside pad_left_thumb = refl
pad_code-inside pad_right_thumb = refl
pad_code-inside pad_d_pad_up = refl
pad_code-inside pad_d_pad_right = refl
pad_code-inside pad_d_pad_down = refl
pad_code-inside pad_d_pad_left = refl

axis_code-inside : (a : GamepadAxis) → ltb (axis_code a) 6 ≡ true
unfolding axis_code
axis_code-inside axis_left_x = refl
axis_code-inside axis_left_y = refl
axis_code-inside axis_right_x = refl
axis_code-inside axis_right_y = refl
axis_code-inside axis_left_trigger = refl
axis_code-inside axis_right_trigger = refl

-- Where GLFW gives the state of a gamepad as fifteen buttons and six axes, asking for any button and
-- any axis of any gamepad reads inside of these arrays: the answers are those of the elements that
-- the enumerators number.
pub gamepad_reads :
    {F : Type 0} (g : Glfw F) (gamepad : Gamepad) (button : GamepadButton) (axis : GamepadAxis)
    (s : Platform)
    → ((calls : List GlfwCall) (n : ℕ) → length (g.gamepad_state calls n).buttons ≡ 15)
    → ((calls : List GlfwCall) (n : ℕ) → length (g.gamepad_state calls n).axes ≡ 6)
    → ((b : ℕ) × (get_elem?
            (g.gamepad_state s.calls (gamepad_code gamepad)).buttons
            (pad_code button)
          ≡ some b)
        × (is_gamepad_button_down g gamepad button s ≡ ok (not (b == g.release))))
      × ((x : F) × (get_elem? (g.gamepad_state s.calls (gamepad_code gamepad)).axes (axis_code axis)
            ≡ some x)
          × (get_gamepad_axis_state g gamepad axis s ≡ ok x))
unfolding is_gamepad_button_down get_gamepad_axis_state
gamepad_reads g gamepad button axis s buttons axes =
    let n = gamepad_code gamepad in
    let state = g.gamepad_state s.calls n in
    let pressed : pad_code button < length state.buttons =
      omega (arith, buttons s.calls n, ltb→lt (pad_code button) 15 (pad_code-inside button)) in
    let turned : axis_code axis < length state.axes =
      omega (arith, axes s.calls n, ltb→lt (axis_code axis) 6 (axis_code-inside axis)) in
    let (b, at_button) = get_elem?-inside state.buttons (pad_code button) pressed in
    let (x, at_axis) = get_elem?-inside state.axes (axis_code axis) turned in
    ((b, at_button, rw (at_button) refl), (x, at_axis, rw (at_axis) refl))
