-- ===== src/World/Systems.antt =====
-- The start of the engine's systems, one by one, and of its window, on a program before its first frame.
use rune_old.Base.{
  ℕ, ◌≡◌, refl, ap, true, false, some, [], ◌∷◌, if◌then◌else◌, Bytes, Outcome, ok, Returns, codes,
  rune_assert-true,
}
use rune_old.Engine.{
  platform, renderer, scripting, resources, scene, Call, initialise_system, create_window,
  show_window, load_scene,
}
use rune_old.Events.{register_receiver}
use rune_old.Ini.{is_empty}
use rune_old.Platform
use rune_old.Platform.{glfw_init, new_platform, glfw_call}
use rune_old.Renderer.FirstFrame.{Starts, IsShader, initialise-equipped, equipped}
use rune_old.Resources
use rune_old.Resources.{SystemResources}
use rune_old.Scenes
use rune_old.Scenes.{SystemScene, clear_scene}
use rune_old.Scripting.Startup.{Loads, core_file, app_file, initialise-Loads}
use rune_old.World.Life.{Outside, lifecycle, created_window, scene_of, with_scene}
use rune_old.World.Untouched.{Untouched}
use rune_old.World.{World, Parts, perform}

module _ {F I V2 V3 Q M Reg R G W Res : Type 0} (parts : Parts F I V2 V3 Q M Reg R G W Res)
    (o : Outside V3 Q Reg R W Res) where
  abbrev pub act : Call F → World F I V2 M Reg R G W Res → Outcome (World F I V2 M Reg R G W Res)
  act = perform parts (lifecycle parts o)

  -- The libraries make what the start asks them for, and its files are there: the shaders, of whole
  -- words, and the two assemblies.
  pub record Provides : Type 0 where
    pub device : Starts o.device
    pub vert : IsShader o.files (codes "triangle.vert.spv")
    pub frag : IsShader o.files (codes "triangle.frag.spv")
    pub glfw : parts.glfw.init_succeeds [] ≡ true
    pub root : W → ℕ × W
    pub domain :
        (v : W) → o.mono.jit_init (codes "RuneJitRuntime") v ≡ (some (root v).0, (root v).1)
    pub core : Loads o.mono o.files core_file
    pub app : Loads o.mono o.files (app_file o.current_path)

  -- A scene with no entities, and the platform and its window behind the start.
  abbrev pub cleared : SystemScene Reg
  cleared = record { registry = o.registry.no_entities; loaded_scene_map = [] }

  abbrev pub polling : Platform.Platform
  polling = record (glfw_call glfw_init new_platform) { glfw_initialised = true }

  abbrev pub windowed : Platform.Platform
  windowed = (Platform.create_window parts.glfw 1280 720 (codes "Rune") polling).1

  -- The initial scene, if there is one, over a table of resources.
  abbrev pub first_scene :
      Bytes → SystemResources Res → Outcome (SystemScene Reg × SystemResources Res)
  first_scene filename t =
      if is_empty filename
      then ok (cleared, t)
      else Scenes.load_scene o.registry parts.debug o.load_fuel
          (parts.glfw.new_window (glfw_init ∷ [])) o.strid o.load_scene_yaml filename cleared t

  module _ (provides : Provides) {t : SystemResources Res} {s : SystemScene Reg} where
    pub platform-Untouched :
        (w : World F I V2 M Reg R G W Res)
        → Untouched new_platform t s w
        → Returns (Untouched polling t s) (act (initialise_system platform) w)
    unfolding perform lifecycle Platform.initialise
    platform-Untouched w u = (
      record w { window_system = polling },
      rw (perform, u.windows, provides.glfw, rune_assert-true parts.debug) refl,
      record {
        nothing_posted = u.nothing_posted;
        unfilmed = u.unfilmed;
        windows = refl;
        resources = u.resources;
        scene = u.scene;
      },
    )

    module _ (p : Platform.Platform) (w : World F I V2 M Reg R G W Res)
        (u : Untouched p t s w) where
      pub renderer-Untouched : Returns (Untouched p t s) (act (initialise_system renderer) w)
      unfolding perform lifecycle register_receiver
      renderer-Untouched =
          let (device, made, x, run) =
            initialise-equipped o.device o.files o.receiver w.event_system w.frame.renderer
              w.frame.world provides.device provides.vert provides.frag in
          (
            record w {
              device = device;
              event_system = register_receiver o.receiver w.event_system;
              frame = record (w.frame) { renderer = equipped made w.frame.renderer; world = x };
            },
            rw (perform, run) refl,
            record {
              nothing_posted = u.nothing_posted;
              unfilmed = record {
                no_draw_calls = u.unfilmed.no_draw_calls;
                no_instances = u.unfilmed.no_instances;
                no_meshes = u.unfilmed.no_meshes;
                no_materials = u.unfilmed.no_materials;
                no_cameras = u.unfilmed.no_cameras;
                two_frames = u.unfilmed.two_frames;
              };
              windows = u.windows;
              resources = u.resources;
              scene = u.scene;
            },
          )

      pub scripting-Untouched : Returns (Untouched p t s) (act (initialise_system scripting) w)
      unfolding perform lifecycle
      scripting-Untouched =
          let (scripts, types, x, _, run, _, _, _, _, _) =
            initialise-Loads o.mono parts.debug o.files o.current_path o.type_name
              w.scripting_system w.frame.world provides.root provides.domain provides.core
              provides.app in
          (
            record w {
              scripting_system = scripts;
              component_types = types;
              frame = record (w.frame) { world = x };
            },
            rw (perform, run) refl,
            record {
              nothing_posted = u.nothing_posted;
              unfilmed = u.unfilmed;
              windows = u.windows;
              resources = u.resources;
              scene = u.scene;
            },
          )

      pub resources-Untouched :
          {t' : SystemResources Res}
          → Resources.initialise parts.debug o.strid o.exists o.load_registry_yaml o.factory
              o.entries t
            ≡ ok t'
          → Returns (Untouched p t' s) (act (initialise_system resources) w)
      unfolding perform lifecycle
      resources-Untouched {t'} run = (
        record w { resource_system = t' },
        rw (perform, u.resources, run) refl,
        record {
          nothing_posted = u.nothing_posted;
          unfilmed = u.unfilmed;
          windows = u.windows;
          resources = refl;
          scene = u.scene;
        },
      )

      pub show-Untouched :
          (window : ℕ)
          → Returns
              (Untouched (Platform.show_window parts.glfw window p) t s)
              (act (show_window window) w)
      unfolding perform lifecycle
      show-Untouched window = (
        record w { window_system = Platform.show_window parts.glfw window p },
        rw (perform, u.windows) refl,
        record {
          nothing_posted = u.nothing_posted;
          unfilmed = u.unfilmed;
          windows = refl;
          resources = u.resources;
          scene = u.scene;
        },
      )

  module _ {t : SystemResources Res} where
    pub scene-Untouched :
        (p : Platform.Platform) (w : World F I V2 M Reg R G W Res)
        → Untouched p t cleared w
        → Returns (Untouched p t cleared) (act (initialise_system scene) w)
    unfolding perform lifecycle clear_scene
    scene-Untouched p w u = (
      with_scene (clear_scene o.registry (scene_of w)) w,
      refl,
      record {
        nothing_posted = u.nothing_posted;
        unfilmed = u.unfilmed;
        windows = u.windows;
        resources = u.resources;
        scene = ap (λ (s : SystemScene Reg). clear_scene o.registry s) u.scene;
      },
    )

    pub window-Untouched :
        {s : SystemScene Reg} (w : World F I V2 M Reg R G W Res)
        → Untouched polling t s w
        → Returns (Untouched windowed t s) (act create_window w)
    unfolding perform lifecycle Platform.create_window
    window-Untouched w u = (
      record w { window_system = windowed },
      rw (perform, u.windows) refl,
      record {
        nothing_posted = u.nothing_posted;
        unfilmed = u.unfilmed;
        windows = refl;
        resources = u.resources;
        scene = u.scene;
      },
    )

    -- The window that is there is the one that has been created.
    pub load-Untouched :
        (window : ℕ) (filename : Bytes) {t' : SystemResources Res} {s : SystemScene Reg}
        (w : World F I V2 M Reg R G W Res)
        → first_scene filename t ≡ ok (s, t')
        → is_empty filename ≡ false
        → Untouched (Platform.show_window parts.glfw window windowed) t cleared w
        → Returns
            (Untouched (Platform.show_window parts.glfw window windowed) t' s)
            (act (load_scene filename) w)
    unfolding perform lifecycle created_window Platform.create_window
    load-Untouched window filename {t'} {s} w first given u = (
      with_scene s (record w { resource_system = t' }),
      rw (perform, u.windows, u.resources, u.scene, rw given at first) refl,
      record {
        nothing_posted = u.nothing_posted;
        unfilmed = u.unfilmed;
        windows = u.windows;
        resources = refl;
        scene = refl;
      },
    )
