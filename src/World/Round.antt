-- ===== src/World/Round.antt =====
-- A frame of the engine, through all of its systems: events, windows, scene, and renderer.
use rune_old.Base.{
  ℕ, ◌≤◌, ◌≡◌, refl, ap, ◌∙◌, false, some, List, [], ◌∷◌, if◌then◌else◌, arith, length, Outcome, ok,
  for_each, map, ◌+◌, ◌++◌, Bool, length-map,
}
use rune_old.Engine.{
  SystemKind, platform, renderer, Call, update_system, set_window_title, flush_renderer, Engine,
  update, call_systems, get_system,
}
use rune_old.Engine.Order.{startup_order, call_systems-entries, call_system-found}
use rune_old.Engine.Startup.{ranking, entries}
use rune_old.Events.{SystemEvents}
use rune_old.Events.Delivery.{Quiet, each_event}
use rune_old.Maps.{nat_eq}
use rune_old.Platform
use rune_old.Platform.{GlfwCall, glfw_poll_events, glfw_set_window_title}
use rune_old.Platform.Resize.{
  event_of, window_resizes, messages-window_resizes, update-window_resizes,
}
use rune_old.Renderer.{SystemRenderer, flush}
use rune_old.Renderer.Flush
use rune_old.Renderer.Flush.{HasChain, Works, flush-Ready}
use rune_old.Renderer.Submit.{Object, Shows, Room}
use rune_old.Resources.{SystemResources}
use rune_old.Scenes.Drawn.{Pictures}
use rune_old.Scenes.Update
use rune_old.Scenes.Update.{Frame, update_scripts, update_cameras}
use rune_old.World.{World, Parts, perform, close_requested, title_of}
use rune_old.World.Scene.{ScriptsReturn, MovesKeep, update-Ready}

module _ {F I V2 V3 Q M Reg R G W Res : Type 0} (parts : Parts F I V2 V3 Q M Reg R G W Res)
    (elsewhere : Call F
      → World F I V2 M Reg R G W Res
      → Outcome (World F I V2 M Reg R G W Res)) where
  -- The events behind the delivery, and the state behind the systems' `update`.
  abbrev delivered : World F I V2 M Reg R G W Res → SystemEvents R G
  delivered w = record (w.event_system) {
    messages = [];
    world =
        each_event parts.react w.event_system.receivers w.event_system.messages
          w.event_system.world;
  }

  abbrev updated : World F I V2 M Reg R G W Res → Frame Reg I V2 M W → World F I V2 M Reg R G W Res
  updated w f' =
      let polled = Platform.update parts.glfw w.window_system in
      record w {
        event_system = window_resizes (parts.resized polled.calls) (delivered w);
        window_system = polled;
        frame = f';
      }

  -- The systems in their order: what waited is delivered, then the windows are polled, and then the
  -- scene is shown.
  for_each-updated :
      (delta_time : F) (w : World F I V2 M Reg R G W Res) (f' : Frame Reg I V2 M W)
      → Quiet parts.react
      → length w.event_system.messages ≤ parts.rounds
      → Update.update parts.glm parts.views parts.gfx parts.glfw delta_time
          (Platform.update parts.glfw w.window_system)
          parts.invoke_method
          parts.casts
          w.resource_system
          w.frame
        ≡ ok f'
      → for_each (λ k. perform parts elsewhere (update_system delta_time k)) startup_order w
        ≡ ok (updated w f')
  unfolding perform
  for_each-updated delta_time w f' quiet enough shown =
      let run =
        update-window_resizes parts.react parts.rounds [] w.event_system quiet (omega arith) in
      rw (run, shown) refl

  module _ (hash_code : SystemKind → ℕ) where
    -- The systems stand in their order and are there.
    abbrev pub Standing : Engine F → Type 0
    Standing e =
        (e.system_priority_vec ≡ entries hash_code ranking)
        × ((k : SystemKind) → get_system hash_code k e ≡ some k)

    -- Whether GLFW asks for the close of the window when it has polled.
    abbrev pub closes : Engine F → World F I V2 M Reg R G W Res → Bool
    closes e w =
        parts.glfw.should_close (Platform.update parts.glfw w.window_system).calls e.primary_window

    -- The engine behind a frame.
    abbrev pub behind : Engine F → World F I V2 M Reg R G W Res → Engine F
    behind e w = record e { is_running = if closes e w then false else e.is_running }

    -- Between two frames: the registry is fine, the rounds of the queue are enough for the events that wait, and the
    -- renderer has no draw calls and room for the indices of `n` more objects.
    pub record Idle (Fine : Reg → Type 0) (n : ℕ) (w : World F I V2 M Reg R G W Res) : Type 0 where
      pub fine : Fine w.frame.registry
      pub few : length w.event_system.messages ≤ parts.rounds
      pub room : Room n w.frame.renderer
      pub empty : w.frame.renderer.draw_calls ≡ []
      pub ready : Flush.Ready parts.gfx w.frame.renderer []

    -- A frame: the engine's `update` returns. The events that waited are delivered; the resizes that
    -- GLFW reports while it polls wait for the next frame. The flush shows the objects of the
    -- registry as this frame's update leaves it. GLFW has polled once and has set the title, the
    -- receivers and the resources are the same, and the engine goes on unless the close of its
    -- window is requested.
    pub record Shown (objects : Reg → List (Object M)) (e : Engine F)
        (w w' : World F I V2 M Reg R G W Res) : Type 0 where
      pub returns :
          update hash_code (perform parts elsewhere) (close_requested parts) e w
          ≡ ok (behind e w, w')
      pub delivers :
          w'.event_system.world
          ≡ each_event parts.react w.event_system.receivers w.event_system.messages
              w.event_system.world
      pub waiting :
          w'.event_system.messages
          ≡ map event_of (parts.resized (Platform.update parts.glfw w.window_system).calls)
      pub shows :
          (s : SystemRenderer M) × (x : W) × Shows s s.draw_calls (objects w'.frame.registry)
          × (flush parts.gfx parts.debug s x ≡ ok (w'.frame.renderer, w'.frame.world))
      pub calls :
          w'.window_system.calls
          ≡ (w.window_system.calls ++ glfw_poll_events ∷ [])
            ++ glfw_set_window_title e.primary_window (title_of parts e.delta_time) ∷ []
      pub same_receivers : w'.event_system.receivers ≡ w.event_system.receivers
      pub same_resources : w'.resource_system ≡ w.resource_system

    module _ (Fine : Reg → Type 0) (resources : SystemResources Res)
        (objects : Reg → List (Object M)) (n : ℕ) (quiet : Quiet parts.react)
        (returns : ScriptsReturn Fine parts.invoke_method) (moves : MovesKeep Fine parts.views)
        (works : Works parts.gfx)
        (pictures : (reg : Reg)
          → Fine reg
          → Pictures parts.glm parts.casts resources (parts.views.renderers reg) (objects reg))
        (bounded : (reg : Reg) → Fine reg → length (objects reg) ≤ n)
        (few : (calls : List GlfwCall) → length (parts.resized calls) ≤ parts.rounds) where
      pub update-Shows :
          (k : ℕ) (e : Engine F) (w : World F I V2 M Reg R G W Res)
          → Standing e
          → w.resource_system ≡ resources
          → Idle Fine (n + k) w
          → (w' : World F I V2 M Reg R G W Res) × Shown objects e w w' × Idle Fine k w'
      unfolding update close_requested perform get_system
      update-Shows k e w standing same idle =
          let polled = Platform.update parts.glfw w.window_system in
          let (f', shown, ready1, room1, fine1) =
            update-Ready parts e.delta_time Fine polled w.resource_system w.frame objects n k
              returns moves (rw same pictures) bounded idle.fine idle.room idle.empty idle.ready in
          let act = perform parts elsewhere in
          let call = update_system e.delta_time in
          let systems : call_systems hash_code act call e.system_priority_vec e.system_map w
              ≡ for_each (λ k. act (call k)) startup_order w =
            ap (λ es. call_systems hash_code act call es e.system_map w) standing.0
            ∙ call_systems-entries hash_code act call ranking e.system_map w standing.1 in
          let (s', x', flushed, ready2, _, none_left, no_instances, _, _, meshes, materials) =
            flush-Ready parts.gfx parts.debug f'.renderer f'.world (objects f'.registry) works
              ready1 in
          let e' = behind e w in
          let w1 = updated w f' in
          let title = title_of parts e.delta_time in
          let titled =
            Platform.set_window_title parts.glfw e.primary_window title w1.window_system in
          let w2 : World _ _ _ _ _ _ _ _ _ = record w1 { window_system = titled } in
          let w3 : World _ _ _ _ _ _ _ _ _ = record w2 {
            frame = record f' { renderer = s'; world = x' };
          } in
          let posted = messages-window_resizes (parts.resized polled.calls) (delivered w) in
          let messages = ap (λ (x : SystemEvents R G). x.messages) posted in
          (
            w3,
            record {
              returns =
                  rw
                    (
                      update,
                      systems,
                      for_each-updated e.delta_time w f' quiet idle.few shown,
                      call_system-found hash_code act platform
                          (set_window_title e.primary_window e.delta_time) e' w1
                          (standing.1 platform),
                      call_system-found hash_code act renderer flush_renderer e' w2
                          (standing.1 renderer),
                      perform,
                      flushed,
                    )
                    refl;
              delivers = ap (λ (x : SystemEvents R G). x.world) posted;
              waiting = messages;
              shows = (f'.renderer, f'.world, ready1.shows, flushed);
              calls = refl;
              same_receivers = ap (λ (x : SystemEvents R G). x.receivers) posted;
              same_resources = refl;
            },
            record {
              fine = fine1;
              few =
                  rw (messages, length-map (parts.resized polled.calls) event_of)
                    (few polled.calls);
              room = (
                rw materials room1.0,
                rw meshes room1.1,
                rw no_instances (omega (arith, room1.2)),
              );
              empty = none_left;
              ready = ready2;
            },
          )
