-- ===== src/Renderer/FirstFrame.antt =====
-- From the start of the renderer to its first frame.
use rune_old.Base.{
  ℕ, ◌%◌, ◌≡◌, refl, Bool, true, Option, some, [], ◌∷◌, ◌++◌, ◌==◌, length, Bytes, codes, ok,
}
use rune_old.Binary.{read_binary}
use rune_old.Binary.Whole.{read_binary-whole}
use rune_old.Events.{SystemEvents, register_receiver}
use rune_old.Ini.{expected}
use rune_old.Renderer.{SystemRenderer, Gfx, flush}
use rune_old.Renderer.Flush.{Ready, Works, flush-Ready}
use rune_old.Renderer.Startup.{Device, new_renderer, initialise}
use rune_old.Renderer.Submit.{nothing}

-- The graphics library makes what it is asked for.
pub record Starts {W : Type 0} (d : Device W) : Type 0 where
  pub world_of : W → W
  pub initialises : (w : W) → d.gfx_initialise w ≡ (true, world_of w)
  pub device_of : W → ℕ × W
  pub devices : (w : W) → d.create_device w ≡ (some (device_of w).0, (device_of w).1)
  pub depth_of : W → ℕ × W
  pub depths : (w : W) → d.create_depth_texture 1280 720 w ≡ (some (depth_of w).0, (depth_of w).1)
  pub pipeline_of : Bytes → Bytes → W → ℕ × W
  pub pipelines :
      (v f : Bytes) (w : W)
      → d.create_graphics_pipeline v f w ≡ (some (pipeline_of v f w).0, (pipeline_of v f w).1)

-- A file of whole words is there.
pub record IsShader (files : Bytes → Option Bytes) (filename : Bytes) : Type 0 where
  pub code : Bytes
  pub is_there : files filename ≡ some code
  pub whole : ((length code % 4) == 0) ≡ true

read_binary-IsShader :
    (files : Bytes → Option Bytes) (filename : Bytes) (shader : IsShader files filename)
    → read_binary 4 files filename ≡ ok (expected shader.code)
read_binary-IsShader files filename shader =
    rw (read_binary-whole 4 files filename shader.code shader.is_there, shader.whole) refl

-- The renderer with what the start makes: the depth attachment, the pipeline, the buffer of the
-- camera, and the descriptor set.
abbrev pub equipped : {M : Type 0} → ℕ × ℕ × ℕ × ℕ → SystemRenderer M → SystemRenderer M
equipped (depth, pipeline, buffer, set) s = record s {
  depth_attachment = depth;
  pipeline = pipeline;
  camera_buffer = buffer;
  descriptor_set = set;
}

-- The start returns, and equips the renderer that it is given.
pub initialise-equipped :
    {M W V R : Type 0} (d : Device W) (files : Bytes → Option Bytes) (receiver : R)
    (events : SystemEvents R V) (s : SystemRenderer M) (w : W)
    → Starts d
    → IsShader files (codes "triangle.vert.spv")
    → IsShader files (codes "triangle.frag.spv")
    → (device : ℕ) × (made : ℕ × ℕ × ℕ × ℕ) × (w' : W) × (initialise d files receiver events s w
        ≡ ok (device, register_receiver receiver events, equipped made s, w'))
unfolding initialise
initialise-equipped d files receiver events s w starts vert frag =
    let w1 = starts.world_of w in
    let device = starts.device_of w1 in
    let depth = starts.depth_of device.1 in
    let piped = starts.pipeline_of vert.code frag.code depth.1 in
    let buffer = d.create_uniform_buffer 128 piped.1 in
    let set = d.create_descriptor_set piped.0 0 buffer.1 in
    (
      device.0,
      (depth.0, piped.0, buffer.0, set.0),
      d.bind_buffer set.0 0 buffer.0 set.1,
      rw
          (
            initialise,
            starts.initialises w,
            starts.devices w1,
            starts.depths device.1,
            read_binary-IsShader files (codes "triangle.vert.spv") vert,
            read_binary-IsShader files (codes "triangle.frag.spv") frag,
            starts.pipelines vert.code frag.code depth.1,
          )
          refl,
    )

-- Where the graphics library makes what it is asked for and the two shaders are files of whole words,
-- the renderer starts, behind the receivers of events that are registered already, and is ready for
-- its first frame: `flush` then returns, with no camera to draw, and leaves it ready.
pub first_frame :
    {M W V R X : Type 0} (d : Device W) (files : Bytes → Option Bytes) (receiver : R)
    (events : SystemEvents R V) (w : W) (g : Gfx M X) (debug : Bool) (x : X)
    → Starts d
    → IsShader files (codes "triangle.vert.spv")
    → IsShader files (codes "triangle.frag.spv")
    → Works g
    → (device : ℕ) × (events' : SystemEvents R V) × (s : SystemRenderer M) × (w' : W) × (initialise
          d files receiver events new_renderer w
        ≡ ok (device, events', s, w'))
      × (events'.receivers ≡ events.receivers ++ receiver ∷ [])
      × (s' : SystemRenderer M) × (x' : X) × (flush g debug s x ≡ ok (s', x'))
      × Ready g s' []
unfolding register_receiver
first_frame d files receiver events w g debug x starts vert frag works =
    let (device, made, w', run) =
      initialise-equipped d files receiver events new_renderer w starts vert frag in
    let s = equipped made new_renderer in
    let ready : Ready g s [] = record { two_frames = refl; chains = tt; shows = nothing } in
    let (s', x', flushed, still, _, _, _, _, _, _, _) = flush-Ready g debug s x [] works ready in
    (device, register_receiver receiver events, s, w', run, refl, s', x', flushed, still)
