-- ===== src/World/Untouched.antt =====
-- The program before its first frame.
use rune_old.Base.{◌≡◌, [], length}
use rune_old.Platform.{Platform}
use rune_old.Renderer.{SystemRenderer, frame_buffer_count}
use rune_old.Resources.{SystemResources}
use rune_old.Scenes.{SystemScene}
use rune_old.World.Life.{scene_of}
use rune_old.World.{World}

-- Nothing is submitted or filmed.
pub record Unfilmed {M : Type 0} (s : SystemRenderer M) : Type 0 where
  pub no_draw_calls : s.draw_calls ≡ []
  pub no_instances : s.instances ≡ []
  pub no_meshes : s.meshes ≡ []
  pub no_materials : s.materials ≡ []
  pub no_cameras : s.cameras_to_render ≡ []
  pub two_frames : length s.frames ≡ frame_buffer_count

-- Nothing is posted either; the platform, the table of resources and the scene are the given ones.
pub record Untouched {F I V2 M Reg R G W Res : Type 0} (p : Platform) (t : SystemResources Res)
    (s : SystemScene Reg) (w : World F I V2 M Reg R G W Res) : Type 0 where
  pub nothing_posted : w.event_system.messages ≡ []
  pub unfilmed : Unfilmed w.frame.renderer
  pub windows : w.window_system ≡ p
  pub resources : w.resource_system ≡ t
  pub scene : scene_of w ≡ s
