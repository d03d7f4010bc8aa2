-- ===== src/World/RunTests.antt =====
-- A run that loads a scene of one entity, with a mesh and a material of the registry file.
use rune_old.Base.{ℕ, ◌+◌, true, some, Option, List, [], ◌∷◌, codes, ok, length}
use rune_old.Engine.{Engine}
use rune_old.Engine.Samples.{engine}
use rune_old.Maps.{nat_eq}
use rune_old.Platform.{new_platform}
use rune_old.Renderer.{GfxCall}
use rune_old.Renderer.Startup.{new_renderer}
use rune_old.Renderer.Submit.{nothing}
use rune_old.Scenes.Samples.{maths, casts, at_origin}
use rune_old.World.{World, Parts}
use rune_old.Resources
use rune_old.Resources.{SystemResources, FactoryFunc, register_factory}
use rune_old.Resources.Types.{
  ResourceType, static_mesh, texture, material, ResourceState, disk, ResourceMetadata,
}
use rune_old.Resources.Typed.{nothing_registered}
use rune_old.Scenes
use rune_old.Scenes.{Registry, SystemScene, StaticRenderer, clear_scene}
use rune_old.Scenes.Drawn.{nothing}
use rune_old.Scenes.Frame.{world_matrix}
use rune_old.Renderer.Submit.{Object}
use rune_old.Scripting.{Mono}
use rune_old.Paths.{join, parent_path}
use rune_old.World.Life.{Outside}
use rune_old.World.Samples.{parts, world}

-- The world of the graphics library is the list of its calls.
abbrev mono : Mono (List (GfxCall ℕ))
mono = record {
  set_assemblies_path = λ p w. w;
  jit_init = λ n w. (some 1, w);
  set_main_thread = λ w. w;
  create_appdomain = λ w. (some 2, w);
  set_domain = λ d w. w;
  root_domain = λ w. some 1;
  unload_domain = λ d w. w;
  jit_cleanup = λ d w. w;
  open_image = λ b w. (some 3, w);
  load_assembly = λ i f w. (some 4, w);
  close_image = λ i w. w;
  image_of = λ a. a;
  class_from_name = λ i n c. some 1;
  method_from_name = λ c m. some 1;
  invoke = λ m w. w;
  add_internal_call = λ f w. w;
  type_from_name = λ n i. some 7;
}

-- The registry file has a mesh and a material; the scene has one entity with both.
abbrev outside : Outside ℕ ℕ ℕ ℕ (List (GfxCall ℕ)) ℕ
outside = record {
  device = record {
    gfx_initialise = λ w. (true, w);
    create_device = λ w. (some 1, w);
    create_depth_texture = λ width height w. (some 2, w);
    create_graphics_pipeline = λ v f w. (some 3, w);
    create_uniform_buffer = λ n w. (4, w);
    create_descriptor_set = λ p i w. (5, w);
    bind_buffer = λ set i b w. w;
    wait_for_device_idle = λ d w. w;
    destroy_device = λ d w. w;
    gfx_shutdown = λ w. w;
  };
  files = λ _. some (3 ∷ 2 ∷ 35 ∷ 7 ∷ []);
  receiver = 30;
  mono = mono;
  current_path = codes "run";
  type_name = λ _. codes "struct rune::Transform";
  strid = length;
  exists = λ _. true;
  load_registry_yaml = λ _. some (record {
    resources = some (
        record { id = some 1; type = some 0; source = some []; deps = some [] }
        ∷ record { id = some 2; type = some 2; source = some []; deps = some [] }
        ∷ []);
  });
  factory = λ _ _ _. ok (some 5);
  entries = [];
  registry = record {
    no_entities = 0;
    create = λ n. (n, n + 1);
    destroy = λ e n. n;
    emplace_transform = λ e t n. n;
    emplace_static_renderer = λ e r n. n;
    emplace_camera = λ e w n. n;
    emplace_script = λ e name n. n;
  };
  load_scene_yaml = λ _. some (record {
    entities = some (
        record {
          transform = some (some at_origin);
          static_renderer = some (record { mesh = some 1; materials = some 2 ∷ [] });
          camera = true;
          script_class = some (some (codes "Player"));
        }
        ∷ []);
  });
  load_fuel = 2;
}

abbrev run_parts : Parts ℕ ℕ ℕ ℕ ℕ ℕ ℕ ℕ ℕ (List (GfxCall ℕ)) ℕ
run_parts = record parts {
  views = record (parts.views) {
    renderers = λ _. (at_origin, record { mesh = some 1; materials = some 2 ∷ [] }) ∷ [];
  };
}

-- The entry of a resource, and the table with the two.
abbrev entry : ResourceType → ResourceState → Option ℕ → ResourceMetadata ℕ
entry type state resource = record {
  type = type;
  state = state;
  source = disk;
  source_filename = join (parent_path (codes "../../data/registry.yaml")) [];
  resource = resource;
  dependencies = [];
}

abbrev table : ResourceState → Option ℕ → SystemResources ℕ
table state resource =
    let f : FactoryFunc ℕ = λ _ _. ok (some 5) in
    record (register_factory material f
      (register_factory texture f (register_factory static_mesh f nothing_registered))) {
        metadata_map =
            (1, entry static_mesh state resource) ∷ (2, entry material state resource) ∷ [];
      }

abbrev one_entity : SystemScene ℕ
one_entity = record {
  registry = 1;
  loaded_scene_map = (length (join (codes "../../data") (codes "a.yaml")), 0 ∷ []) ∷ [];
}

abbrev objects_shown : List (Object ℕ)
objects_shown =
    record {
      mesh = casts.as_mesh 5;
      material = 5;
      others = [];
      transform = world_matrix maths at_origin;
    }
    ∷ []

abbrev scene_engine : Engine ℕ
scene_engine = record engine { config = record (engine.config) { initial_scene = codes "a.yaml" } }

abbrev unstarted : World ℕ ℕ ℕ ℕ ℕ ℕ ℕ (List (GfxCall ℕ)) ℕ
unstarted = record world {
  event_system = record { receivers = []; messages = []; world = 0 };
  window_system = new_platform;
  resource_system = nothing_registered;
  frame = record (world.frame) { registry = 0; renderer = new_renderer };
}
