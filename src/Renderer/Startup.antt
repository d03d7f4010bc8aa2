-- ===== src/Renderer/Startup.antt =====
-- Rune/src/rendering/system_renderer.cpp: `SystemRenderer::initialise` and `shutdown`. The graphics
-- library's calls at the start are a parameter over its state `W`, and so is the file system.
use rune_old.Base.{
  ℕ, ◌*◌, Bool, Option, [], Bytes, codes, replicate, Outcome, ok, fault, ◌>>=◌, ◌>>◌, or_fault,
  require, exception_thrown,
}
use rune_old.Binary.{read_binary}
use rune_old.Events.{SystemEvents, register_receiver}
use rune_old.Ini.{ReadResult, expected, unexpected}
use rune_old.Renderer.{SystemRenderer, frame_buffer_count}

-- `none` is a call that returns false; the pipeline is created of two shaders.
pub record Device (W : Type 0) : Type 0 where
  pub gfx_initialise : W → Bool × W
  pub create_device : W → Option ℕ × W
  pub create_depth_texture : ℕ → ℕ → W → Option ℕ × W
  pub create_graphics_pipeline : Bytes → Bytes → W → Option ℕ × W
  pub create_uniform_buffer : ℕ → W → ℕ × W
  pub create_descriptor_set : ℕ → ℕ → W → ℕ × W
  pub bind_buffer : ℕ → ℕ → ℕ → W → W
  pub wait_for_device_idle : ℕ → W → W
  pub destroy_device : ℕ → W → W
  pub gfx_shutdown : W → W

-- The members of a new renderer; a handle that is not set is 0.
abbrev pub new_renderer : {M : Type 0} → SystemRenderer M
new_renderer = record {
  swapchain_map = [];
  cameras_to_render = [];
  draw_calls = [];
  instances = [];
  meshes = [];
  materials = [];
  depth_attachment = 0;
  camera_buffer = 0;
  pipeline = 0;
  descriptor_set = 0;
  frames =
      replicate frame_buffer_count (record { fences = []; semaphores = []; command_lists = [] });
  frame_index = 0;
}

-- `value()`, which throws where there is none.
abbrev pub value_of : ReadResult → Outcome Bytes
value_of (expected bytes) = ok bytes
value_of (unexpected e) = fault exception_thrown

module _ {M W R V : Type 0} (d : Device W) where
  -- The device is a result of its own. A matrix has 64 bytes, a word of a shader four.
  unfoldable pub initialise :
      (Bytes → Option Bytes)
      → R
      → SystemEvents R V
      → SystemRenderer M
      → W
      → Outcome (ℕ × SystemEvents R V × SystemRenderer M × W)
  initialise files receiver events s w = do
    let (initialised, w1) = d.gfx_initialise w
    require initialised exception_thrown
    let (created, w2) = d.create_device w1
    device ← or_fault created exception_thrown
    let (depth, w3) = d.create_depth_texture 1280 720 w2
    depth_attachment ← or_fault depth exception_thrown
    vert_read ← read_binary 4 files (codes "triangle.vert.spv")
    vert ← value_of vert_read
    frag_read ← read_binary 4 files (codes "triangle.frag.spv")
    frag ← value_of frag_read
    let (piped, w4) = d.create_graphics_pipeline vert frag w3
    pipeline ← or_fault piped exception_thrown
    let (buffer, w5) = d.create_uniform_buffer (64 * 2) w4
    let (set, w6) = d.create_descriptor_set pipeline 0 w5
    ok (
      device,
      register_receiver receiver events,
      record s {
        depth_attachment = depth_attachment;
        pipeline = pipeline;
        camera_buffer = buffer;
        descriptor_set = set;
      },
      d.bind_buffer set 0 buffer w6,
    )

unfoldable pub shutdown : {W : Type 0} → Device W → ℕ → W → W
shutdown d device w = d.gfx_shutdown (d.destroy_device device (d.wait_for_device_idle device w))
