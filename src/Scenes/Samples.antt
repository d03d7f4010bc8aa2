-- ===== src/Scenes/Samples.antt =====
-- Two renderers for tests: the mesh of the first is loaded, that of the second is not.
use rune_old.Base.{ℕ, ◌+◌, refl, true, none, some, List, [], ◌∷◌, ◌++◌}
use rune_old.Maps.{find, nat_eq}
use rune_old.Renderer.{SystemRenderer, Gfx, GfxCall}
use rune_old.Renderer.Submit.{Object}
use rune_old.Resources.{SystemResources}
use rune_old.Resources.Handles.{is_loaded, get}
use rune_old.Resources.Types.{material, not_loaded, loaded, disk, ResourceMetadata}
use rune_old.Scenes.{StaticRenderer}
use rune_old.Scenes.Drawn.{Pictures, nothing, not_shown, shown}
use rune_old.Scenes.Frame.{Glm, Transform, world_matrix}
use rune_old.Scenes.Update.{Casts, get_materials}

-- Everything is a number.
abbrev pub maths : Glm ℕ ℕ ℕ ℕ ℕ ℕ
maths = record {
  literal = λ _. 1;
  of_nat = λ n. n;
  truncate = λ n. n;
  difference = λ _ _. 0;
  vec2 = λ a b. a;
  x2 = λ a. a;
  y2 = λ a. a;
  add2 = λ a b. a + b;
  vec3 = λ a b c. a;
  add3 = λ a b. a + b;
  scale3 = λ a b. a;
  is_long = λ _. true;
  normalize = λ a. a;
  rotate = λ a b. b;
  clamp = λ a b c. a;
  radians = λ a. a;
  quat = λ a. a;
  divide = λ a b. a;
  identity = 0;
  multiply = λ a b. a + b;
  translate = λ a b. a + b;
  scale = λ a b. a;
  mat4_cast = λ a. a;
  inverse = λ a. a;
  perspective = λ a b c d. a;
}

abbrev pub casts : Casts ℕ
casts = record {
  as_mesh = λ n. record { index_count = n; index_buffer = n; vertex_buffers = n ∷ [] };
  as_material = λ n. n;
}

abbrev pub held : ℕ → ResourceMetadata ℕ
held n = record {
  type = material;
  state = loaded;
  source = disk;
  source_filename = [];
  resource = some n;
  dependencies = [];
}

abbrev pub resources : SystemResources ℕ
resources = record {
  factories = [];
  metadata_map =
      (1, held 5) ∷ (2, held 6) ∷ (3, record (held 7) { state = not_loaded; resource = none }) ∷ [];
}

abbrev pub at_origin : Transform ℕ ℕ
at_origin = record { position = 0; rotation = 0; scale = 1 }

abbrev pub views : List (Transform ℕ ℕ × StaticRenderer)
views =
    (at_origin, record { mesh = some 1; materials = some 2 ∷ [] })
    ∷ (at_origin, record { mesh = some 3; materials = [] })
    ∷ []

abbrev pub objects : List (Object ℕ)
objects =
    record {
      mesh = casts.as_mesh 5;
      material = 6;
      others = [];
      transform = world_matrix maths at_origin;
    }
    ∷ []

pub pictures : Pictures maths casts resources views objects
unfolding is_loaded get get_materials find
pictures = shown refl refl refl (not_shown refl nothing)

abbrev pub empty_renderer : SystemRenderer ℕ
empty_renderer = record {
  swapchain_map = [];
  cameras_to_render = [];
  draw_calls = [];
  instances = [];
  meshes = [];
  materials = [];
  depth_attachment = 1;
  camera_buffer = 2;
  pipeline = 3;
  descriptor_set = 4;
  frames = [];
  frame_index = 0;
}

abbrev pub gfx : Gfx ℕ (List (GfxCall ℕ))
gfx = record {
  perform = λ c w. w ++ c ∷ [];
  create_swap_chain = λ window w. (some 7, w);
  create_command_list = λ w. (some 8, w);
  get_swap_chain_image = λ chain w. (some 9, w);
  submit_command_list = λ cmd w. ((10, 11), w);
  texture_set = λ material w. material + 100;
}
