-- ===== src/Platform/Keys.antt =====
-- Rune/include/rune/platform/input_enums.hpp: the enumerations of keys, buttons and gamepads, and the
-- values of their enumerators, which are those of GLFW. An enumerator that repeats another one's
-- value is that other one.
use rune_old.Base.{ℕ}

pub data Key : Type 0 where
  key_space key_apostrophe key_comma key_minus key_period key_slash key_zero key_one key_two : Key
  key_three key_four key_five key_six key_seven key_eight key_nine key_semicolon key_equal key_a :
      Key
  key_b key_c key_d key_e key_f key_g key_h key_i key_j key_k key_l key_m key_n key_o key_p key_q :
      Key
  key_r key_s key_t key_u key_v key_w key_x key_y key_z key_left_bracket key_backslash : Key
  key_right_bracket key_grave_accent key_world_1 key_world_2 key_escape key_enter key_tab : Key
  key_backspace key_insert key_delete key_right key_left key_down key_up key_page_up key_page_down :
      Key
  key_home key_end key_caps_lock key_scroll_lock key_num_lock key_print_screen key_pause key_f1 :
      Key
  key_f2 key_f3 key_f4 key_f5 key_f6 key_f7 key_f8 key_f9 key_f10 key_f11 key_f12 key_f13 key_f14 :
      Key
  key_f15 key_f16 key_f17 key_f18 key_f19 key_f20 key_f21 key_f22 key_f23 key_f24 key_f25 : Key
  key_keypad_0 key_keypad_1 key_keypad_2 key_keypad_3 key_keypad_4 key_keypad_5 key_keypad_6 : Key
  key_keypad_7 key_keypad_8 key_keypad_9 key_keypad_decimal key_keypad_divide key_keypad_multiply :
      Key
  key_keypad_subtract key_keypad_add key_keypad_enter key_keypad_equal key_left_shift : Key
  key_left_control key_left_alt key_left_super key_right_shift key_right_control key_right_alt : Key
  key_right_super key_menu : Key

unfoldable pub key_code : Key → ℕ
key_code key_space = 32
key_code key_apostrophe = 39
key_code key_comma = 44
key_code key_minus = 45
key_code key_period = 46
key_code key_slash = 47
key_code key_zero = 48
key_code key_one = 49
key_code key_two = 50
key_code key_three = 51
key_code key_four = 52
key_code key_five = 53
key_code key_six = 54
key_code key_seven = 55
key_code key_eight = 56
key_code key_nine = 57
key_code key_semicolon = 59
key_code key_equal = 61
key_code key_a = 65
key_code key_b = 66
key_code key_c = 67
key_code key_d = 68
key_code key_e = 69
key_code key_f = 70
key_code key_g = 71
key_code key_h = 72
key_code key_i = 73
key_code key_j = 74
key_code key_k = 75
key_code key_l = 76
key_code key_m = 77
key_code key_n = 78
key_code key_o = 79
key_code key_p = 80
key_code key_q = 81
key_code key_r = 82
key_code key_s = 83
key_code key_t = 84
key_code key_u = 85
key_code key_v = 86
key_code key_w = 87
key_code key_x = 88
key_code key_y = 89
key_code key_z = 90
key_code key_left_bracket = 91
key_code key_backslash = 92
key_code key_right_bracket = 93
key_code key_grave_accent = 96
key_code key_world_1 = 161
key_code key_world_2 = 162
key_code key_escape = 256
key_code key_enter = 257
key_code key_tab = 258
key_code key_backspace = 259
key_code key_insert = 260
key_code key_delete = 261
key_code key_right = 262
key_code key_left = 263
key_code key_down = 264
key_code key_up = 265
key_code key_page_up = 266
key_code key_page_down = 267
key_code key_home = 268
key_code key_end = 269
key_code key_caps_lock = 280
key_code key_scroll_lock = 281
key_code key_num_lock = 282
key_code key_print_screen = 283
key_code key_pause = 284
key_code key_f1 = 290
key_code key_f2 = 291
key_code key_f3 = 292
key_code key_f4 = 293
key_code key_f5 = 294
key_code key_f6 = 295
key_code key_f7 = 296
key_code key_f8 = 297
key_code key_f9 = 298
key_code key_f10 = 299
key_code key_f11 = 300
key_code key_f12 = 301
key_code key_f13 = 302
key_code key_f14 = 303
key_code key_f15 = 304
key_code key_f16 = 305
key_code key_f17 = 306
key_code key_f18 = 307
key_code key_f19 = 308
key_code key_f20 = 309
key_code key_f21 = 310
key_code key_f22 = 311
key_code key_f23 = 312
key_code key_f24 = 313
key_code key_f25 = 314
key_code key_keypad_0 = 320
key_code key_keypad_1 = 321
key_code key_keypad_2 = 322
key_code key_keypad_3 = 323
key_code key_keypad_4 = 324
key_code key_keypad_5 = 325
key_code key_keypad_6 = 326
key_code key_keypad_7 = 327
key_code key_keypad_8 = 328
key_code key_keypad_9 = 329
key_code key_keypad_decimal = 330
key_code key_keypad_divide = 331
key_code key_keypad_multiply = 332
key_code key_keypad_subtract = 333
key_code key_keypad_add = 334
key_code key_keypad_enter = 335
key_code key_keypad_equal = 336
key_code key_left_shift = 340
key_code key_left_control = 341
key_code key_left_alt = 342
key_code key_left_super = 343
key_code key_right_shift = 344
key_code key_right_control = 345
key_code key_right_alt = 346
key_code key_right_super = 347
key_code key_menu = 348

pub data Button : Type 0 where
  button_one button_two button_three button_four button_five button_six button_seven button_eight :
      Button

unfoldable pub button_code : Button → ℕ
button_code button_one = 0
button_code button_two = 1
button_code button_three = 2
button_code button_four = 3
button_code button_five = 4
button_code button_six = 5
button_code button_seven = 6
button_code button_eight = 7

pub data Gamepad : Type 0 where
  gamepad_one gamepad_two gamepad_three gamepad_four gamepad_five gamepad_six gamepad_seven :
      Gamepad
  gamepad_eight gamepad_nine gamepad_ten gamepad_eleven gamepad_twelve gamepad_thirteen : Gamepad
  gamepad_fourteen gamepad_fifteen gamepad_sixteen : Gamepad

unfoldable pub gamepad_code : Gamepad → ℕ
gamepad_code gamepad_one = 0
gamepad_code gamepad_two = 1
gamepad_code gamepad_three = 2
gamepad_code gamepad_four = 3
gamepad_code gamepad_five = 4
gamepad_code gamepad_six = 5
gamepad_code gamepad_seven = 6
gamepad_code gamepad_eight = 7
gamepad_code gamepad_nine = 8
gamepad_code gamepad_ten = 9
gamepad_code gamepad_eleven = 10
gamepad_code gamepad_twelve = 11
gamepad_code gamepad_thirteen = 12
gamepad_code gamepad_fourteen = 13
gamepad_code gamepad_fifteen = 14
gamepad_code gamepad_sixteen = 15

pub data GamepadButton : Type 0 where
  pad_a pad_b pad_x pad_y pad_left_bumper pad_right_bumper pad_back pad_start pad_guide :
      GamepadButton
  pad_left_thumb pad_right_thumb pad_d_pad_up pad_d_pad_right pad_d_pad_down pad_d_pad_left :
      GamepadButton

unfoldable pub pad_code : GamepadButton → ℕ
pad_code pad_a = 0
pad_code pad_b = 1
pad_code pad_x = 2
pad_code pad_y = 3
pad_code pad_left_bumper = 4
pad_code pad_right_bumper = 5
pad_code pad_back = 6
pad_code pad_start = 7
pad_code pad_guide = 8
pad_code pad_left_thumb = 9
pad_code pad_right_thumb = 10
pad_code pad_d_pad_up = 11
pad_code pad_d_pad_right = 12
pad_code pad_d_pad_down = 13
pad_code pad_d_pad_left = 14

pub data GamepadAxis : Type 0 where
  axis_left_x axis_left_y axis_right_x axis_right_y axis_left_trigger axis_right_trigger :
      GamepadAxis

unfoldable pub axis_code : GamepadAxis → ℕ
axis_code axis_left_x = 0
axis_code axis_left_y = 1
axis_code axis_right_x = 2
axis_code axis_right_y = 3
axis_code axis_left_trigger = 4
axis_code axis_right_trigger = 5
