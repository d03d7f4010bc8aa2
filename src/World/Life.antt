-- ===== src/World/Life.antt =====
-- Rune/src/core/engine.cpp: what the engine's calls at its start and at its end come to, over its
-- systems. Logging is left out here, where nothing reads it; the lines are those of Logging/Whole.
use rune_old.Base.{ℕ, Bool, Bytes, Option, List, [], ◌∷◌, codes, Outcome, ok, ◌>>=◌}
use rune_old.Engine.{
  platform, renderer, scripting, resources, scene, Call, initialise_system, shutdown_system,
  create_window, show_window, load_scene,
}
use rune_old.Platform
use rune_old.Platform.{GlfwCall, glfw_create_window}
use rune_old.Renderer.Startup
use rune_old.Renderer.Startup.{Device}
use rune_old.Resources
use rune_old.Resources.{RegistryFile, FactoryFunc, DirEntry}
use rune_old.Resources.Types.{ResourceType}
use rune_old.Scenes
use rune_old.Scenes.{Registry, SystemScene, SceneFile, clear_scene}
use rune_old.Scenes.Frame.{Transform}
use rune_old.Scripting
use rune_old.Scripting.{Mono, Component, shutdown_mono}
use rune_old.World.{World, Parts}

-- The window that was created last, behind the calls so far; `last` is that of the calls before.
unfoldable pub created_window : ℕ → List GlfwCall → ℕ
created_window last [] = last
created_window last (glfw_create_window window width height title ∷ cs) = created_window window cs
created_window last (_ ∷ cs) = created_window last cs

-- What the start uses of libraries and of the file system, with the fuel of the loads. `receiver` is the
-- renderer's.
pub record Outside (V3 Q Reg R W Res : Type 0) : Type 0 where
  pub device : Device W
  pub files : Bytes → Option Bytes
  pub receiver : R
  pub mono : Mono W
  pub current_path : Bytes
  pub type_name : Component → Bytes
  pub strid : Bytes → ℕ
  pub exists : Bytes → Bool
  pub load_registry_yaml : Bytes → Option RegistryFile
  pub factory : ResourceType → FactoryFunc Res
  pub entries : List DirEntry
  pub registry : Registry Reg (Transform V3 Q)
  pub load_scene_yaml : Bytes → Option (SceneFile (Transform V3 Q))
  pub load_fuel : ℕ

module _ {F I V2 M Reg R G W Res : Type 0} where
  abbrev pub new_window : World F I V2 M Reg R G W Res → ℕ
  new_window w = created_window 0 w.window_system.calls

  abbrev pub scene_of : World F I V2 M Reg R G W Res → SystemScene Reg
  scene_of w = record { registry = w.frame.registry; loaded_scene_map = w.loaded_scene_map }

  abbrev pub with_scene :
      SystemScene Reg → World F I V2 M Reg R G W Res → World F I V2 M Reg R G W Res
  with_scene s w = record w {
    frame = record (w.frame) { registry = s.registry };
    loaded_scene_map = s.loaded_scene_map;
  }

module _ {F I V2 V3 Q M Reg R G W Res : Type 0} (parts : Parts F I V2 V3 Q M Reg R G W Res)
    (o : Outside V3 Q Reg R W Res) where
  -- The start and the shutdown of the other systems, and the lines of the engine, only log.
  unfoldable pub lifecycle :
      Call F → World F I V2 M Reg R G W Res → Outcome (World F I V2 M Reg R G W Res)
  lifecycle (initialise_system platform) w = do
    started ← Platform.initialise parts.glfw parts.debug w.window_system
    ok (record w { window_system = started })
  lifecycle (initialise_system renderer) w = do
    started ←
        Startup.initialise o.device o.files o.receiver w.event_system w.frame.renderer w.frame.world
    let (device, receiving, s, x) = started
    ok (record w {
      device = device;
      event_system = receiving;
      frame = record (w.frame) { renderer = s; world = x };
    })
  lifecycle (initialise_system scripting) w = do
    started ←
        Scripting.initialise o.mono parts.debug o.files o.current_path o.type_name
          w.scripting_system w.frame.world
    let (s, types, x) = started
    ok (record w {
      scripting_system = s;
      component_types = types;
      frame = record (w.frame) { world = x };
    })
  lifecycle (initialise_system resources) w = do
    table ←
        Resources.initialise parts.debug o.strid o.exists o.load_registry_yaml o.factory o.entries
          w.resource_system
    ok (record w { resource_system = table })
  lifecycle (initialise_system scene) w = ok (with_scene (clear_scene o.registry (scene_of w)) w)
  lifecycle create_window w = ok (record w {
    window_system = (Platform.create_window parts.glfw 1280 720 (codes "Rune") w.window_system).1;
  })
  lifecycle (show_window window) w =
      ok (record w { window_system = Platform.show_window parts.glfw window w.window_system })
  lifecycle (load_scene filename) w = do
    loaded ←
        Scenes.load_scene o.registry parts.debug o.load_fuel (new_window w) o.strid
          o.load_scene_yaml filename (scene_of w) w.resource_system
    ok (with_scene loaded.0 (record w { resource_system = loaded.1 }))
  lifecycle (shutdown_system platform) w =
      ok (record w { window_system = Platform.shutdown parts.glfw w.window_system })
  lifecycle (shutdown_system renderer) w = ok (record w {
    frame = record (w.frame) { world = Startup.shutdown o.device w.device w.frame.world };
  })
  lifecycle (shutdown_system scripting) w =
      let (s, x) = shutdown_mono o.mono w.scripting_system w.frame.world in
      ok (record w { scripting_system = s; frame = record (w.frame) { world = x } })
  lifecycle c w = ok w
