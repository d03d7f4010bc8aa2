-- ===== src/World/Samples.antt =====
-- Data for the tests: a program whose GLFW asks for the close of the window when it has polled twice, and
-- the engine behind its start.
use rune_old.Base.{
  ℕ, ◌+◌, ◌≡◌, refl, true, false, none, some, List, [], ◌∷◌, codes, ok, length, leb, Outcome,
}
use rune_old.Engine.{
  SystemKind, logging, events, platform, renderer, scripting, resources, scene, Engine, Call,
  get_system,
}
use rune_old.Engine.Samples.{hash_code, engine}
use rune_old.Engine.Startup.{ranking, entries}
use rune_old.Maps.{find, nat_eq}
use rune_old.Platform.{Glfw}
use rune_old.Platform.Resize.{event_of}
use rune_old.Renderer.{GfxCall}
use rune_old.Renderer.Flush.{Works}
use rune_old.Scenes.Samples
use rune_old.Scenes.Samples.{maths, casts, gfx, pictures, objects, empty_renderer, at_origin}
use rune_old.World.Run.{polls}
use rune_old.World.{World, Parts}
use rune_old.Scripting.{Scripting}

abbrev pub glfw : Glfw ℕ
glfw = record {
  release = 0;
  init_succeeds = λ _. true;
  get_time = length;
  new_window = λ _. 3;
  should_close = λ calls _. leb 2 (polls calls);
  window_size_of = λ _ _. (640, 480);
  framebuffer_size_of = λ _ _. (640, 480);
  window_pos_of = λ _ _. (0, 0);
  primary_monitor = λ _. 1;
  video_mode = λ _ _. record { width = 640; height = 480; refresh_rate = 60 };
  key_name = λ _. [];
  key_state = λ _ _ _. 0;
  mouse_button_state = λ _ _ _. 1;
  cursor_pos = λ _ _. (4, 5);
  joystick_is_gamepad = λ _ _. false;
  gamepad_name = λ _ _. [];
  gamepad_state = λ _ _. record { buttons = []; axes = [] };
}

-- A receiver adds the window of an event to its number; the registry is a number too.
abbrev pub parts : Parts ℕ ℕ ℕ ℕ ℕ ℕ ℕ ℕ ℕ (List (GfxCall ℕ)) ℕ
parts = record {
  react = λ r msg g. (g + r + msg.context, []);
  rounds = 2;
  glfw = glfw;
  resized = λ _. (3, 640, 480) ∷ [];
  glm = maths;
  views = record {
    scripts = λ _. 1 ∷ [];
    script_of = λ e reg. some (codes "Player");
    cameras = λ _. (2, record { target_window = 3; transform = at_origin }) ∷ [];
    renderers = λ _. Samples.views;
    store_transform = λ entity t reg. reg + 1;
  };
  casts = casts;
  gfx = gfx;
  invoke_method = λ _ _ _ reg w. ok (reg + 1, w);
  format_seconds = λ _. [];
  format_milliseconds = λ _. [];
  debug = true;
}

abbrev pub scripts : Scripting
scripts = record {
  mono_root_domain = none;
  mono_app_domain = none;
  core_assembly = none;
  core_assembly_image = none;
  app_assembly = none;
  app_assembly_image = none;
  core_assembly_filename = [];
  app_assembly_filename = [];
}

abbrev pub world : World ℕ ℕ ℕ ℕ ℕ ℕ ℕ (List (GfxCall ℕ)) ℕ
world = record {
  event_system = record { receivers = 10 ∷ 20 ∷ []; messages = event_of (5, 1, 1) ∷ []; world = 0 };
  window_system = record { glfw_initialised = true; calls = [] };
  resource_system = Samples.resources;
  frame = record {
    registry = 7;
    control = record { last_cursor_pos = (0, 0); yaw_pitch = 0 };
    renderer = record empty_renderer {
      frames =
          record { fences = []; semaphores = []; command_lists = [] }
          ∷ record { fences = []; semaphores = []; command_lists = [] }
          ∷ [];
    };
    world = [];
  };
  loaded_scene_map = [];
  device = 0;
  scripting_system = scripts;
  component_types = [];
}

-- The engine behind its start.
abbrev pub started : Engine ℕ
started = record engine {
  is_running = true;
  delta_time = 16;
  primary_window = 3;
  system_map =
      (0, logging)
      ∷ (1, events)
      ∷ (2, platform)
      ∷ (3, renderer)
      ∷ (4, scripting)
      ∷ (5, resources)
      ∷ (6, scene)
      ∷ [];
  system_priority_vec = entries hash_code ranking;
}

pub found : (k : SystemKind) → get_system hash_code k started ≡ some k
unfolding get_system find
found logging = refl
found events = refl
found platform = refl
found renderer = refl
found scripting = refl
found resources = refl
found scene = refl

abbrev pub elsewhere :
    Call ℕ
    → World ℕ ℕ ℕ ℕ ℕ ℕ ℕ (List (GfxCall ℕ)) ℕ
    → Outcome (World ℕ ℕ ℕ ℕ ℕ ℕ ℕ (List (GfxCall ℕ)) ℕ)
elsewhere c w = ok w

pub gfx-Works : Works gfx
gfx-Works = record { has_list = λ w. (8, refl); has_image = λ chain w. (9, refl) }
