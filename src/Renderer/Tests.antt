-- ===== src/Renderer/Tests.antt =====
-- A graphics library that logs the calls, and two objects.
use rune_old.Base.{
  ◌≡◌, refl, true, ℕ, ◌+◌, ◌%◌, none, some, List, [], ◌∷◌, ◌++◌, arith, length, get_elem?, ok,
  for_each,
}
use rune_old.Maps.{find, nat_eq}
use rune_old.Renderer.{
  frame_buffer_count, RenderCamera, FrameData, SystemRenderer, GfxCall, Gfx, geometry_pass, flush,
}
use rune_old.Renderer.Submit.{
  Object, nothing, submit, draw_objects, bind_scene, geometry_pass-submit,
}
use rune_old.Renderer.Flush.{Works, Holds, Ready, flush-Ready}

abbrev gfx : Gfx ℕ (List (GfxCall ℕ))
gfx = record {
  perform = λ c w. w ++ c ∷ [];
  create_swap_chain = λ window w. (some 7, w);
  create_command_list = λ w. (some 8, w);
  get_swap_chain_image = λ chain w. (some 9, w);
  submit_command_list = λ cmd w. ((10, 11), w);
  texture_set = λ material w. material + 100;
}

abbrev object : ℕ → Object ℕ
object n = record {
  mesh = record { index_count = n; index_buffer = n; vertex_buffers = n ∷ [] };
  material = n;
  others = none ∷ [];
  transform = n;
}

abbrev no_frame : FrameData
no_frame = record { fences = []; semaphores = []; command_lists = [] }

abbrev camera : RenderCamera ℕ
camera = record { target_window = 5; width = 800; height = 600; proj_matrix = 1; view_matrix = 2 }

-- One mesh of an earlier frame is still there.
abbrev system : SystemRenderer ℕ
system = record {
  swapchain_map = (5, 7) ∷ [];
  cameras_to_render = camera ∷ camera ∷ [];
  draw_calls = [];
  instances = [];
  meshes = (object 3).mesh ∷ [];
  materials = some 3 ∷ [];
  depth_attachment = 0;
  camera_buffer = 1;
  pipeline = 2;
  descriptor_set = 3;
  frames = no_frame ∷ no_frame ∷ [];
  frame_index = 0;
}

abbrev objects : List (Object ℕ)
objects = object 1 ∷ object 2 ∷ []

geometry_pass-submit_example :
    (s : SystemRenderer ℕ) × (for_each submit objects system ≡ ok s)
    × (geometry_pass gfx 8 s [] ≡ ok (draw_objects gfx 8 objects (bind_scene gfx 8 2 3 [])))
geometry_pass-submit_example =
    geometry_pass-submit gfx 8 objects system [] refl (omega arith, omega arith, omega arith)

gfx-Works : Works gfx
gfx-Works = record { has_list = λ w. (8, refl); has_image = λ chain w. (9, refl) }

system-Ready : Ready gfx system []
unfolding find
system-Ready = record { two_frames = refl; chains = ((7, refl), ((7, refl), tt)); shows = nothing }

flush-Ready_example :
    (s : SystemRenderer ℕ) × (w : List (GfxCall ℕ)) × (flush gfx true system [] ≡ ok (s, w))
    × Ready gfx s []
    × (s.cameras_to_render ≡ [])
    × (s.draw_calls ≡ [])
    × (s.instances ≡ [])
    × (s.frame_index ≡ (system.frame_index + 1) % frame_buffer_count)
    × ((f : FrameData) × (get_elem? s.frames s.frame_index ≡ some f)
        × Holds gfx (length system.cameras_to_render) f)
    × (s.meshes ≡ system.meshes)
    × (s.materials ≡ system.materials)
flush-Ready_example = flush-Ready gfx true system [] [] gfx-Works system-Ready
