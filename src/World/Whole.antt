-- ===== src/World/Whole.antt =====
-- `Engine::run` from its first call to its last, over the engine's systems.
use rune_old.Base.{ℕ, ◌≡◌, true, List, Outcome, ok}
use rune_old.Engine.{SystemKind, Entry, Call, Engine, initialise, shutdown, run}
use rune_old.Platform
use rune_old.Renderer.Submit.{Object}
use rune_old.Resources
use rune_old.Resources.{SystemResources}
use rune_old.Scenes.{SystemScene}
use rune_old.World.Life.{Outside, lifecycle, new_window, scene_of}
use rune_old.World.Run.{polls, now, Played}
use rune_old.World.Untouched.{Untouched}
use rune_old.World.{World, Parts, perform, close_requested}

module _ {F I V2 V3 Q M Reg R G W Res : Type 0} (parts : Parts F I V2 V3 Q M Reg R G W Res)
    (o : Outside V3 Q Reg R W Res) (hash_code : SystemKind → ℕ) where
  abbrev life : Call F → World F I V2 M Reg R G W Res → Outcome (World F I V2 M Reg R G W Res)
  life = lifecycle parts o

  abbrev act : Call F → World F I V2 M Reg R G W Res → Outcome (World F I V2 M Reg R G W Res)
  act = perform parts life

  module _ (elapsed : F → F → F) (sort : List Entry → List Entry) where
    -- `run` has returned: the engine has started, and GLFW has not polled in the start, which has
    -- loaded the scene; the loop has returned behind one to `m` frames, and the systems are shut
    -- down; GLFW is terminated then.
    pub record Ran (Fine : Reg → Type 0) (objects : Reg → List (Object M)) (s : SystemScene Reg)
        (t : SystemResources Res) (m fuel : ℕ) (e : Engine F) (w : World F I V2 M Reg R G W Res)
        : Type 0 where
      pub opened : Engine F
      pub before : World F I V2 M Reg R G W Res
      pub starts : initialise hash_code act sort new_window e w ≡ ok (opened, before)
      pub not_polled : polls before.window_system.calls ≡ 0
      pub scene : scene_of before ≡ s
      pub resources : before.resource_system ≡ t
      pub played :
          Played parts life hash_code elapsed Fine objects m fuel
            (now parts before)
            (record opened { is_running = true })
            before
      pub final : World F I V2 M Reg R G W Res
      pub returns :
          run hash_code act (close_requested parts) (now parts) elapsed sort new_window fuel e w
          ≡ ok (played.stopped, final)
      pub terminated : final.window_system ≡ Platform.shutdown parts.glfw played.final.window_system
