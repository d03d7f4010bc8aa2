-- ===== src/Renderer.antt =====
-- Rune/include/rune/rendering/system_renderer.hpp and Rune/src/rendering/system_renderer.cpp:
-- `SystemRenderer`, which collects cameras and meshes during a frame and draws them in `flush`.
-- The graphics library is a parameter: a state `W` that its calls change, and what those calls
-- return that the code uses. Matrices are of a type `M`. A material is a pointer, `none` if null.
pub mod Submit
pub mod Flush
pub mod Startup
pub mod FirstFrame
mod Tests
use rune_old.Base.{
  ℕ, ◌+◌, ◌-◌, ◌%◌, ◌^◌, Bool, true, false, Option, none, some, List, [], ◌∷◌, ◌++◌, if◌then◌else◌,
  length, get_elem?, set, Outcome, ok, fault, ◌>>=◌, ◌>>◌, or_fault, for_each, rune_assert, is_some,
  missing_key, null_access, out_of_bounds, exception_thrown,
}
use rune_old.Maps.{find, assign, nat_eq}

abbrev pub frame_buffer_count : ℕ
frame_buffer_count = 2

-- `distSqr` is neither set nor read.
pub record DrawCall : Type 0 where
  pub material : ℕ
  pub mesh : ℕ
  pub instance_index : ℕ

pub record RenderCamera (M : Type 0) : Type 0 where
  pub target_window : ℕ
  pub width : ℕ
  pub height : ℕ
  pub proj_matrix : M
  pub view_matrix : M

pub record RenderMesh : Type 0 where
  pub index_count : ℕ
  pub index_buffer : ℕ
  pub vertex_buffers : List ℕ

abbrev pub MaterialPtr : Type 0
MaterialPtr = Option ℕ

pub record FrameData : Type 0 where
  pub fences : List ℕ
  pub semaphores : List ℕ
  pub command_lists : List ℕ

pub record SystemRenderer (M : Type 0) : Type 0 where
  pub swapchain_map : List (ℕ × ℕ)
  pub cameras_to_render : List (RenderCamera M)
  pub draw_calls : List DrawCall
  pub instances : List M
  pub meshes : List RenderMesh
  pub materials : List MaterialPtr
  pub depth_attachment : ℕ
  pub camera_buffer : ℕ
  pub pipeline : ℕ
  pub descriptor_set : ℕ
  pub frames : List FrameData
  pub frame_index : ℕ

pub data TextureState : Type 0 where
  undefined render_target present : TextureState

-- The calls of the graphics library of which nothing is used that they return.
pub data GfxCall (M : Type 0) : Type 0 where
  wait_on_fence destroy_semaphore destroy_command_list : ℕ → GfxCall M
  map_buffer unmap_buffer : ℕ → GfxCall M
  write_camera_data : M → M → GfxCall M
  begin_commands end_commands end_render_pass : ℕ → GfxCall M
  transition_texture : ℕ → ℕ → TextureState → TextureState → GfxCall M
  begin_render_pass : ℕ → ℕ → ℕ → GfxCall M
  set_viewport set_scissor : ℕ → ℕ → ℕ → GfxCall M
  bind_pipeline : ℕ → ℕ → GfxCall M
  bind_descriptor_set : ℕ → ℕ → ℕ → GfxCall M
  bind_index_buffer : ℕ → ℕ → GfxCall M
  bind_vertex_buffers : ℕ → List ℕ → GfxCall M
  set_constants : ℕ → M → GfxCall M
  draw_indexed : ℕ → ℕ → GfxCall M
  present_swap_chain : ℕ → ℕ → GfxCall M

-- `none` is a call that returns false. `submit_command_list` returns a fence and a semaphore;
-- `create_swap_chain` asks the platform for the window's size and handle.
pub record Gfx (M W : Type 0) : Type 0 where
  pub perform : GfxCall M → W → W
  pub create_swap_chain : ℕ → W → Option ℕ × W
  pub create_command_list : W → Option ℕ × W
  pub get_swap_chain_image : ℕ → W → Option ℕ × W
  pub submit_command_list : ℕ → W → (ℕ × ℕ) × W
  pub texture_set : ℕ → W → ℕ

-- `static_cast<u32>(size - 1)`, for a list that is not empty.
unfoldable pub last_index : ℕ → ℕ
last_index size = (size - 1) % 2 ^ 32

module _ {M : Type 0} where
  unfoldable pub render_static_mesh :
      Option RenderMesh → List MaterialPtr → M → SystemRenderer M → Outcome (SystemRenderer M)
  unfolding last_index
  render_static_mesh none materials transform s = ok s
  render_static_mesh (some mesh) materials transform s = do
    let instances = s.instances ++ transform ∷ []
    let meshes = s.meshes ++ mesh ∷ []
    first ← or_fault (get_elem? materials 0) out_of_bounds
    let all_materials = s.materials ++ first ∷ []
    let draw_call : DrawCall = record {
      material = last_index (length all_materials);
      mesh = last_index (length meshes);
      instance_index = last_index (length instances);
    }
    ok (record s {
      instances = instances;
      meshes = meshes;
      materials = all_materials;
      draw_calls = s.draw_calls ++ draw_call ∷ [];
    })

  module _ {W : Type 0} (g : Gfx M W) where
    unfoldable pub render_camera : RenderCamera M → SystemRenderer M → W → SystemRenderer M × W
    render_camera camera s w = elim (find camera.target_window s.swapchain_map) [
      | some _ ↦ (record s { cameras_to_render = s.cameras_to_render ++ camera ∷ [] }, w)
      | none ↦
          let (created, w') = g.create_swap_chain camera.target_window w in
          elim created [
            | none ↦ (s, w')
            | some chain ↦ (
              record s {
                swapchain_map = assign camera.target_window chain s.swapchain_map;
                cameras_to_render = s.cameras_to_render ++ camera ∷ [];
              },
              w',
            )
          ]
    ]

    -- The body of the loop of `geometry_pass`.
    unfoldable pub draw : ℕ → SystemRenderer M → DrawCall → W → Outcome W
    draw cmd s d w = do
      pointer ← or_fault (get_elem? s.materials d.material) missing_key
      material ← or_fault pointer null_access
      let w1 = g.perform (bind_descriptor_set cmd 1 (g.texture_set material w)) w
      mesh ← or_fault (get_elem? s.meshes d.mesh) missing_key
      let w2 = g.perform (bind_index_buffer cmd mesh.index_buffer) w1
      let w3 = g.perform (bind_vertex_buffers cmd mesh.vertex_buffers) w2
      transform ← or_fault (get_elem? s.instances d.instance_index) missing_key
      let w4 = g.perform (set_constants cmd transform) w3
      ok (g.perform (draw_indexed cmd mesh.index_count) w4)

    unfoldable pub geometry_pass : ℕ → SystemRenderer M → W → Outcome W
    geometry_pass cmd s w =
        let w1 = g.perform (bind_pipeline cmd s.pipeline) w in
        let w2 = g.perform (bind_descriptor_set cmd 0 s.descriptor_set) w1 in
        for_each (draw cmd s) s.draw_calls w2

    module _ (debug : Bool) where
      unfoldable pub flush_camera :
          RenderCamera M → SystemRenderer M × W → Outcome (SystemRenderer M × W)
      flush_camera camera (s, w) = do
        rune_assert debug (is_some (find camera.target_window s.swapchain_map))
        chain ← or_fault (find camera.target_window s.swapchain_map) missing_key
        frame ← or_fault (get_elem? s.frames s.frame_index) missing_key
        let w1 = g.perform (map_buffer s.camera_buffer) w
        let w2 = g.perform (write_camera_data camera.proj_matrix camera.view_matrix) w1
        let w3 = g.perform (unmap_buffer s.camera_buffer) w2
        let created = g.create_command_list w3
        cmd ← or_fault created.0 exception_thrown
        let w4 = g.perform (begin_commands cmd) created.1
        let got = g.get_swap_chain_image chain w4
        image ← or_fault got.0 exception_thrown
        let w5 = g.perform (transition_texture cmd image undefined render_target) got.1
        let w6 = g.perform (begin_render_pass cmd image s.depth_attachment) w5
        let w7 = g.perform (set_viewport cmd camera.width camera.height) w6
        let w8 = g.perform (set_scissor cmd camera.width camera.height) w7
        w9 ← geometry_pass cmd s w8
        let w10 = g.perform (end_render_pass cmd) w9
        let w11 = g.perform (transition_texture cmd image render_target present) w10
        let w12 = g.perform (end_commands cmd) w11
        let submitted = g.submit_command_list cmd w12
        let filled : FrameData = record {
          fences = frame.fences ++ submitted.0.0 ∷ [];
          semaphores = frame.semaphores ++ submitted.0.1 ∷ [];
          command_lists = frame.command_lists ++ cmd ∷ [];
        }
        let w13 = g.perform (present_swap_chain chain submitted.0.1) submitted.1
        ok (record s { frames = set s.frames s.frame_index filled }, w13)

      -- One loop of `flush` over the handles of a frame.
      unfoldable pub perform_each : (ℕ → GfxCall M) → List ℕ → W → W
      perform_each call [] w = w
      perform_each call (h ∷ hs) w = perform_each call hs (g.perform (call h) w)

      unfoldable pub flush : SystemRenderer M → W → Outcome (SystemRenderer M × W)
      unfolding perform_each
      flush s w = do
        let index = (s.frame_index + 1) % frame_buffer_count
        frame ← or_fault (get_elem? s.frames index) missing_key
        let w1 = perform_each wait_on_fence frame.fences w
        let w2 = perform_each destroy_semaphore frame.semaphores w1
        let w3 = perform_each destroy_command_list frame.command_lists w2
        let cleared : FrameData = record { fences = []; semaphores = []; command_lists = [] }
        let begun = record s { frame_index = index; frames = set s.frames index cleared }
        flushed ← for_each flush_camera begun.cameras_to_render (begun, w3)
        ok (
          record (flushed.0) { cameras_to_render = []; draw_calls = []; instances = [] },
          flushed.1,
        )
