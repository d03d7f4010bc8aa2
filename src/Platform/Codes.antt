-- ===== src/Platform/Codes.antt =====
-- No two keys have the same code, and none has one behind that of the last key.
use rune_old.Base.{
  ℕ, ◌≤◌, ◌≡◌, refl, sym, ap, ◌∙◌, true, Option, none, some, List, [], ◌∷◌, ◌==◌, if◌then◌else◌,
  leb, leb→le,
}
use mathlib.Core.Option.{some-injective}
use rune_old.Platform.Keys.{
  Key, key_code, key_space, key_apostrophe, key_comma, key_minus, key_period, key_slash, key_zero,
  key_one, key_two, key_three, key_four, key_five, key_six, key_seven, key_eight, key_nine,
  key_semicolon, key_equal, key_a, key_b, key_c, key_d, key_e, key_f, key_g, key_h, key_i, key_j,
  key_k, key_l, key_m, key_n, key_o, key_p, key_q, key_r, key_s, key_t, key_u, key_v, key_w, key_x,
  key_y, key_z, key_left_bracket, key_backslash, key_right_bracket, key_grave_accent, key_world_1,
  key_world_2, key_escape, key_enter, key_tab, key_backspace, key_insert, key_delete, key_right,
  key_left, key_down, key_up, key_page_up, key_page_down, key_home, key_end, key_caps_lock,
  key_scroll_lock, key_num_lock, key_print_screen, key_pause, key_f1, key_f2, key_f3, key_f4,
  key_f5, key_f6, key_f7, key_f8, key_f9, key_f10, key_f11, key_f12, key_f13, key_f14, key_f15,
  key_f16, key_f17, key_f18, key_f19, key_f20, key_f21, key_f22, key_f23, key_f24, key_f25,
  key_keypad_0, key_keypad_1, key_keypad_2, key_keypad_3, key_keypad_4, key_keypad_5, key_keypad_6,
  key_keypad_7, key_keypad_8, key_keypad_9, key_keypad_decimal, key_keypad_divide,
  key_keypad_multiply, key_keypad_subtract, key_keypad_add, key_keypad_enter, key_keypad_equal,
  key_left_shift, key_left_control, key_left_alt, key_left_super, key_right_shift,
  key_right_control, key_right_alt, key_right_super, key_menu,
}

-- The first key of a list with a code.
abbrev find_key : ℕ → List Key → Option Key
find_key n [] = none
find_key n (k ∷ ks) = if key_code k == n then some k else find_key n ks

abbrev all_keys : List Key
all_keys =
    key_space ∷ key_apostrophe ∷ key_comma ∷ key_minus ∷ key_period ∷ key_slash ∷ key_zero ∷ key_one
    ∷ key_two ∷ key_three ∷ key_four ∷ key_five ∷ key_six ∷ key_seven ∷ key_eight ∷ key_nine
    ∷ key_semicolon ∷ key_equal ∷ key_a ∷ key_b ∷ key_c ∷ key_d ∷ key_e ∷ key_f ∷ key_g ∷ key_h
    ∷ key_i ∷ key_j ∷ key_k ∷ key_l ∷ key_m ∷ key_n ∷ key_o ∷ key_p ∷ key_q ∷ key_r ∷ key_s ∷ key_t
    ∷ key_u ∷ key_v ∷ key_w ∷ key_x ∷ key_y ∷ key_z ∷ key_left_bracket ∷ key_backslash
    ∷ key_right_bracket ∷ key_grave_accent ∷ key_world_1 ∷ key_world_2 ∷ key_escape ∷ key_enter
    ∷ key_tab ∷ key_backspace ∷ key_insert ∷ key_delete ∷ key_right ∷ key_left ∷ key_down ∷ key_up
    ∷ key_page_up ∷ key_page_down ∷ key_home ∷ key_end ∷ key_caps_lock ∷ key_scroll_lock
    ∷ key_num_lock ∷ key_print_screen ∷ key_pause ∷ key_f1 ∷ key_f2 ∷ key_f3 ∷ key_f4 ∷ key_f5
    ∷ key_f6 ∷ key_f7 ∷ key_f8 ∷ key_f9 ∷ key_f10 ∷ key_f11 ∷ key_f12 ∷ key_f13 ∷ key_f14 ∷ key_f15
    ∷ key_f16 ∷ key_f17 ∷ key_f18 ∷ key_f19 ∷ key_f20 ∷ key_f21 ∷ key_f22 ∷ key_f23 ∷ key_f24
    ∷ key_f25 ∷ key_keypad_0 ∷ key_keypad_1 ∷ key_keypad_2 ∷ key_keypad_3 ∷ key_keypad_4
    ∷ key_keypad_5 ∷ key_keypad_6 ∷ key_keypad_7 ∷ key_keypad_8 ∷ key_keypad_9 ∷ key_keypad_decimal
    ∷ key_keypad_divide ∷ key_keypad_multiply ∷ key_keypad_subtract ∷ key_keypad_add
    ∷ key_keypad_enter ∷ key_keypad_equal ∷ key_left_shift ∷ key_left_control ∷ key_left_alt
    ∷ key_left_super ∷ key_right_shift ∷ key_right_control ∷ key_right_alt ∷ key_right_super
    ∷ key_menu ∷ []

-- A key is found by its code, which is at most the last one.
Decodes : Key → Type 0
Decodes k =
    (find_key (key_code k) all_keys ≡ some k) × (leb (key_code k) (key_code key_menu) ≡ true)

key_code-Decodes : (k : Key) → Decodes k
unfolding key_code Decodes
key_code-Decodes key_space = (refl, refl)
key_code-Decodes key_apostrophe = (refl, refl)
key_code-Decodes key_comma = (refl, refl)
key_code-Decodes key_minus = (refl, refl)
key_code-Decodes key_period = (refl, refl)
key_code-Decodes key_slash = (refl, refl)
key_code-Decodes key_zero = (refl, refl)
key_code-Decodes key_one = (refl, refl)
key_code-Decodes key_two = (refl, refl)
key_code-Decodes key_three = (refl, refl)
key_code-Decodes key_four = (refl, refl)
key_code-Decodes key_five = (refl, refl)
key_code-Decodes key_six = (refl, refl)
key_code-Decodes key_seven = (refl, refl)
key_code-Decodes key_eight = (refl, refl)
key_code-Decodes key_nine = (refl, refl)
key_code-Decodes key_semicolon = (refl, refl)
key_code-Decodes key_equal = (refl, refl)
key_code-Decodes key_a = (refl, refl)
key_code-Decodes key_b = (refl, refl)
key_code-Decodes key_c = (refl, refl)
key_code-Decodes key_d = (refl, refl)
key_code-Decodes key_e = (refl, refl)
key_code-Decodes key_f = (refl, refl)
key_code-Decodes key_g = (refl, refl)
key_code-Decodes key_h = (refl, refl)
key_code-Decodes key_i = (refl, refl)
key_code-Decodes key_j = (refl, refl)
key_code-Decodes key_k = (refl, refl)
key_code-Decodes key_l = (refl, refl)
key_code-Decodes key_m = (refl, refl)
key_code-Decodes key_n = (refl, refl)
key_code-Decodes key_o = (refl, refl)
key_code-Decodes key_p = (refl, refl)
key_code-Decodes key_q = (refl, refl)
key_code-Decodes key_r = (refl, refl)
key_code-Decodes key_s = (refl, refl)
key_code-Decodes key_t = (refl, refl)
key_code-Decodes key_u = (refl, refl)
key_code-Decodes key_v = (refl, refl)
key_code-Decodes key_w = (refl, refl)
key_code-Decodes key_x = (refl, refl)
key_code-Decodes key_y = (refl, refl)
key_code-Decodes key_z = (refl, refl)
key_code-Decodes key_left_bracket = (refl, refl)
key_code-Decodes key_backslash = (refl, refl)
key_code-Decodes key_right_bracket = (refl, refl)
key_code-Decodes key_grave_accent = (refl, refl)
key_code-Decodes key_world_1 = (refl, refl)
key_code-Decodes key_world_2 = (refl, refl)
key_code-Decodes key_escape = (refl, refl)
key_code-Decodes key_enter = (refl, refl)
key_code-Decodes key_tab = (refl, refl)
key_code-Decodes key_backspace = (refl, refl)
key_code-Decodes key_insert = (refl, refl)
key_code-Decodes key_delete = (refl, refl)
key_code-Decodes key_right = (refl, refl)
key_code-Decodes key_left = (refl, refl)
key_code-Decodes key_down = (refl, refl)
key_code-Decodes key_up = (refl, refl)
key_code-Decodes key_page_up = (refl, refl)
key_code-Decodes key_page_down = (refl, refl)
key_code-Decodes key_home = (refl, refl)
key_code-Decodes key_end = (refl, refl)
key_code-Decodes key_caps_lock = (refl, refl)
key_code-Decodes key_scroll_lock = (refl, refl)
key_code-Decodes key_num_lock = (refl, refl)
key_code-Decodes key_print_screen = (refl, refl)
key_code-Decodes key_pause = (refl, refl)
key_code-Decodes key_f1 = (refl, refl)
key_code-Decodes key_f2 = (refl, refl)
key_code-Decodes key_f3 = (refl, refl)
key_code-Decodes key_f4 = (refl, refl)
key_code-Decodes key_f5 = (refl, refl)
key_code-Decodes key_f6 = (refl, refl)
key_code-Decodes key_f7 = (refl, refl)
key_code-Decodes key_f8 = (refl, refl)
key_code-Decodes key_f9 = (refl, refl)
key_code-Decodes key_f10 = (refl, refl)
key_code-Decodes key_f11 = (refl, refl)
key_code-Decodes key_f12 = (refl, refl)
key_code-Decodes key_f13 = (refl, refl)
key_code-Decodes key_f14 = (refl, refl)
key_code-Decodes key_f15 = (refl, refl)
key_code-Decodes key_f16 = (refl, refl)
key_code-Decodes key_f17 = (refl, refl)
key_code-Decodes key_f18 = (refl, refl)
key_code-Decodes key_f19 = (refl, refl)
key_code-Decodes key_f20 = (refl, refl)
key_code-Decodes key_f21 = (refl, refl)
key_code-Decodes key_f22 = (refl, refl)
key_code-Decodes key_f23 = (refl, refl)
key_code-Decodes key_f24 = (refl, refl)
key_code-Decodes key_f25 = (refl, refl)
key_code-Decodes key_keypad_0 = (refl, refl)
key_code-Decodes key_keypad_1 = (refl, refl)
key_code-Decodes key_keypad_2 = (refl, refl)
key_code-Decodes key_keypad_3 = (refl, refl)
key_code-Decodes key_keypad_4 = (refl, refl)
key_code-Decodes key_keypad_5 = (refl, refl)
key_code-Decodes key_keypad_6 = (refl, refl)
key_code-Decodes key_keypad_7 = (refl, refl)
key_code-Decodes key_keypad_8 = (refl, refl)
key_code-Decodes key_keypad_9 = (refl, refl)
key_code-Decodes key_keypad_decimal = (refl, refl)
key_code-Decodes key_keypad_divide = (refl, refl)
key_code-Decodes key_keypad_multiply = (refl, refl)
key_code-Decodes key_keypad_subtract = (refl, refl)
key_code-Decodes key_keypad_add = (refl, refl)
key_code-Decodes key_keypad_enter = (refl, refl)
key_code-Decodes key_keypad_equal = (refl, refl)
key_code-Decodes key_left_shift = (refl, refl)
key_code-Decodes key_left_control = (refl, refl)
key_code-Decodes key_left_alt = (refl, refl)
key_code-Decodes key_left_super = (refl, refl)
key_code-Decodes key_right_shift = (refl, refl)
key_code-Decodes key_right_control = (refl, refl)
key_code-Decodes key_right_alt = (refl, refl)
key_code-Decodes key_right_super = (refl, refl)
key_code-Decodes key_menu = (refl, refl)

-- Two keys with the same code are the same key, and its code is at most that of `Menu`, which the
-- source calls the last one.
pub key_code-injective :
    (a b : Key) → key_code a ≡ key_code b → (a ≡ b) × (key_code a ≤ key_code key_menu)
unfolding Decodes
key_code-injective a b e = (
  some-injective a b
      (sym (key_code-Decodes a).0 ∙ ap (λ n. find_key n all_keys) e ∙ (key_code-Decodes b).0),
  leb→le (key_code a) (key_code key_menu) (key_code-Decodes a).1,
)
