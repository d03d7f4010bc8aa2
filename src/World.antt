-- ===== src/World.antt =====
-- Rune/src/core/engine.cpp with the systems that it runs: what the engine's calls come to in a frame.
-- The state of the program is that of the events, the platform, the resources and the scene, with the
-- renderer that the scene submits to, and what the scripting keeps. What GLFW reports while it polls,
-- what a script does, and the calls that the engine makes at its start and at its end are parameters
-- here; World/Life has those calls.
mod Cameras
mod Scene
pub mod Round
pub mod Run
pub mod Life
mod Untouched
mod Systems
mod Started
pub mod Whole
mod Samples
mod Tests
mod RunTests
use rune_old.Base.{ℕ, Bool, Bytes, List, ok, Outcome, ◌>>=◌, ◌++◌, codes}
use rune_old.Engine.{
  SystemKind, logging, events, platform, renderer, scripting, resources, scene, Call,
  initialise_system, update_system, shutdown_system, create_window, show_window, load_scene,
  set_window_title, flush_renderer, log_info, sleep,
}
use rune_old.Events
use rune_old.Events.{Event, SystemEvents}
use rune_old.Platform
use rune_old.Platform.{Glfw, GlfwCall, Platform, has_window_requested_close}
use rune_old.Platform.Resize.{Resize, window_resizes}
use rune_old.Renderer.{Gfx, flush}
use rune_old.Resources.{SystemResources}
use rune_old.Scenes.Frame.{Glm}
use rune_old.Scenes.Update
use rune_old.Scripting.{Scripting, ComponentTypes}
use rune_old.Scenes.Update.{Views, Casts, Frame}

-- The handle of the graphics device is a member of the renderer. `F` is a float, `R` a receiver of events and `G` the state that the receivers see; `W` is the state
-- of the graphics library, which scripts may change too.
pub record World (F I V2 M Reg R G W Res : Type 0) : Type 0 where
  pub event_system : SystemEvents R G
  pub window_system : Platform
  pub resource_system : SystemResources Res
  pub frame : Frame Reg I V2 M W
  pub loaded_scene_map : List (ℕ × List ℕ)
  pub device : ℕ
  pub scripting_system : Scripting
  pub component_types : ComponentTypes

-- What is not under the engine's own code: receivers, with the rounds that the queue may take, the
-- libraries, the registry and scripts. `resized` are the resizes that GLFW reports by the callback
-- while it polls, behind the calls so far.
pub record Parts (F I V2 V3 Q M Reg R G W Res : Type 0) : Type 0 where
  pub react : R → Event → G → G × List Event
  pub rounds : ℕ
  pub glfw : Glfw F
  pub resized : List GlfwCall → List Resize
  pub glm : Glm F I V2 V3 Q M
  pub views : Views Reg V3 Q
  pub casts : Casts Res
  pub gfx : Gfx M W
  pub invoke_method : Bytes → Bytes → ℕ → Reg → W → Outcome (Reg × W)
  pub format_seconds : F → Bytes
  pub format_milliseconds : F → Bytes
  pub debug : Bool

module _ {F I V2 V3 Q M Reg R G W Res : Type 0} (parts : Parts F I V2 V3 Q M Reg R G W Res) where
  -- The callbacks of GLFW come while it polls.
  unfoldable pub poll : World F I V2 M Reg R G W Res → World F I V2 M Reg R G W Res
  poll w =
      let polled = Platform.update parts.glfw w.window_system in
      record w {
        window_system = polled;
        event_system = window_resizes (parts.resized polled.calls) w.event_system;
      }

  -- The title, with the time of the frame in seconds and in milliseconds.
  abbrev pub title_of : F → Bytes
  title_of time =
      codes "Primary Window - "
      ++ parts.format_seconds time
      ++ codes "s/"
      ++ parts.format_milliseconds time
      ++ codes "ms"

  -- The logging, the renderer, the scripting and the resources do nothing in their `update`.
  unfoldable pub update_of :
      F → SystemKind → World F I V2 M Reg R G W Res → Outcome (World F I V2 M Reg R G W Res)
  unfolding poll
  update_of delta_time logging w = ok w
  update_of delta_time events w = do
    delivered ← Events.update parts.react parts.rounds w.event_system
    ok (record w { event_system = delivered })
  update_of delta_time platform w = ok (poll w)
  update_of delta_time renderer w = ok w
  update_of delta_time scripting w = ok w
  update_of delta_time resources w = ok w
  update_of delta_time scene w = do
    frame ←
        Update.update parts.glm parts.views parts.gfx parts.glfw delta_time w.window_system
          parts.invoke_method parts.casts w.resource_system w.frame
    ok (record w { frame = frame })

  -- The calls of the loop of `run`; the others are `elsewhere`. Sleeping changes nothing here.
  unfoldable pub perform :
      (Call F → World F I V2 M Reg R G W Res → Outcome (World F I V2 M Reg R G W Res))
      → Call F
      → World F I V2 M Reg R G W Res
      → Outcome (World F I V2 M Reg R G W Res)
  unfolding update_of
  perform elsewhere (update_system delta_time k) w = update_of delta_time k w
  perform elsewhere (set_window_title window time) w = ok (record w {
    window_system = Platform.set_window_title parts.glfw window (title_of time) w.window_system;
  })
  perform elsewhere flush_renderer w = do
    flushed ← flush parts.gfx parts.debug w.frame.renderer w.frame.world
    ok (record w { frame = record (w.frame) { renderer = flushed.0; world = flushed.1 } })
  perform elsewhere sleep w = ok w
  perform elsewhere c w = elsewhere c w

  -- The question that the engine asks behind the systems' `update`.
  unfoldable pub close_requested : ℕ → World F I V2 M Reg R G W Res → Bool
  close_requested window w = has_window_requested_close parts.glfw window w.window_system
