-- ===== src/Renderer/Flush.antt =====
-- What `flush` does: it returns whenever the graphics library does its part, and what it leaves.
use rune_old.Base.{
  ℕ, zero, suc, ◌+◌, ◌%◌, ◌<◌, ◌≡◌, refl, ◌∙◌, Bool, true, false, some, List, [], ◌∷◌, ◌++◌, arith,
  length, length-append, length-set, get_elem?, get_elem?-set_self, set, ok, for_each, rune_assert,
  All,
}
use rune_old.Maps.{find, nat_eq}
use rune_old.Renderer.{
  map_buffer, write_camera_data, unmap_buffer, begin_commands, transition_texture, undefined,
  render_target, present, begin_render_pass, end_render_pass, end_commands, set_viewport,
  set_scissor, present_swap_chain, DrawCall, frame_buffer_count, RenderCamera, FrameData,
  SystemRenderer, Gfx, flush_camera, flush, perform_each, wait_on_fence, destroy_semaphore,
  destroy_command_list,
}
use rune_old.Renderer.Submit.{
  Object, Shows, nothing, shown, draw_objects, bind_scene, geometry_pass-Shows,
}

module _ {M W : Type 0} (g : Gfx M W) where
  -- A command list can always be created, and a swap chain always has an image.
  pub record Works : Type 0 where
    pub has_list : (w : W) → (cmd : ℕ) × ((g.create_command_list w).0 ≡ some cmd)
    pub has_image :
        (chain : ℕ) (w : W) → (image : ℕ) × ((g.get_swap_chain_image chain w).0 ≡ some image)

  -- The window of the camera has a swap chain.
  abbrev pub HasChain : SystemRenderer M → RenderCamera M → Type 0
  HasChain s c = (chain : ℕ) × (find c.target_window s.swapchain_map ≡ some chain)

  -- The current frame's data, and the number of submissions that it holds.
  abbrev pub Holds : ℕ → FrameData → Type 0
  Holds n f = (length f.fences ≡ n) × (length f.semaphores ≡ n) × (length f.command_lists ≡ n)

  abbrev HoldsAt : ℕ → SystemRenderer M → Type 0
  HoldsAt n s = (f : FrameData) × (get_elem? s.frames s.frame_index ≡ some f) × Holds n f

  abbrev with_frames : SystemRenderer M → List FrameData → SystemRenderer M
  with_frames s fs = record s { frames = fs }

  get_elem?-lt :
      {A : Type 0} (xs : List A) (i : ℕ) {x : A} → get_elem? xs i ≡ some x → i < length xs
  get_elem?-lt [] i h = cc
  get_elem?-lt (y ∷ xs) zero h = omega arith
  get_elem?-lt (y ∷ xs) (suc i) h = let k = get_elem?-lt xs i h in omega arith

  rune_assert-true : (debug : Bool) → rune_assert debug true ≡ ok tt
  rune_assert-true true = refl
  rune_assert-true false = refl

  Shows-with_frames :
      (s : SystemRenderer M) (fs : List FrameData) {ds : List DrawCall} {os : List (Object M)}
      → Shows s ds os
      → Shows (with_frames s fs) ds os
  Shows-with_frames s fs nothing = nothing
  Shows-with_frames s fs (shown r rest) = shown r (Shows-with_frames s fs rest)

  Shows-begun :
      (s : SystemRenderer M) (i : ℕ) (fs : List FrameData) {ds : List DrawCall}
      {os : List (Object M)}
      → Shows s ds os
      → Shows (record s { frame_index = i; frames = fs }) ds os
  Shows-begun s i fs nothing = nothing
  Shows-begun s i fs (shown r rest) = shown r (Shows-begun s i fs rest)

  -- What `flush_camera` puts into the frame.
  abbrev filled : FrameData → ℕ → ℕ × ℕ → FrameData
  filled f cmd submitted = record {
    fences = f.fences ++ submitted.0 ∷ [];
    semaphores = f.semaphores ++ submitted.1 ∷ [];
    command_lists = f.command_lists ++ cmd ∷ [];
  }

  Holds-filled :
      (n : ℕ) (f : FrameData) (cmd : ℕ) (p : ℕ × ℕ) → Holds n f → Holds (suc n) (filled f cmd p)
  Holds-filled n f cmd p (a, b, c) = (
    omega (arith, length-append f.fences (p.0 ∷ [])),
    omega (arith, length-append f.semaphores (p.1 ∷ [])),
    omega (arith, length-append f.command_lists (cmd ∷ [])),
  )

  module _ (works : Works) (debug : Bool) where
    flush_camera-Shows :
        (c : RenderCamera M) (n : ℕ) (s : SystemRenderer M) (w : W) {os : List (Object M)}
        → HasChain s c
        → HoldsAt n s
        → Shows s s.draw_calls os
        → (fs : List FrameData) × (w' : W) × (flush_camera g debug c (s, w)
            ≡ ok (with_frames s fs, w'))
          × (length fs ≡ length s.frames)
          × HoldsAt (suc n) (with_frames s fs)
    unfolding flush_camera
    flush_camera-Shows c n s w {os} (chain, has) (f, at_index, holds) shows =
        let w1 = g.perform (map_buffer s.camera_buffer) w in
        let w2 = g.perform (write_camera_data c.proj_matrix c.view_matrix) w1 in
        let w3 = g.perform (unmap_buffer s.camera_buffer) w2 in
        let (cmd, has_list) = works.has_list w3 in
        let w4 = g.perform (begin_commands cmd) (g.create_command_list w3).1 in
        let (image, has_image) = works.has_image chain w4 in
        let got = (g.get_swap_chain_image chain w4).1 in
        let w5 = g.perform (transition_texture cmd image undefined render_target) got in
        let w6 = g.perform (begin_render_pass cmd image s.depth_attachment) w5 in
        let w7 = g.perform (set_viewport cmd c.width c.height) w6 in
        let w8 = g.perform (set_scissor cmd c.width c.height) w7 in
        let w9 = draw_objects g cmd os (bind_scene g cmd s.pipeline s.descriptor_set w8) in
        let w10 = g.perform (end_render_pass cmd) w9 in
        let w11 = g.perform (transition_texture cmd image render_target present) w10 in
        let w12 = g.perform (end_commands cmd) w11 in
        let r = g.submit_command_list cmd w12 in
        let f' = filled f cmd r.0 in
        (
          set s.frames s.frame_index f',
          g.perform (present_swap_chain chain r.0.1) r.1,
          rw (
            has,
            rune_assert-true debug,
            at_index,
            has_list,
            has_image,
            geometry_pass-Shows g cmd s w8 shows,
          ),
          length-set s.frames s.frame_index f',
          (
            f',
            get_elem?-set_self s.frames s.frame_index f'
                (get_elem?-lt s.frames s.frame_index at_index),
            Holds-filled n f cmd r.0 holds,
          ),
        )

    flush_cameras :
        (cs : List (RenderCamera M)) (n : ℕ) (s : SystemRenderer M) (w : W) {os : List (Object M)}
        → All (HasChain s) cs
        → HoldsAt n s
        → Shows s s.draw_calls os
        → (fs : List FrameData) × (w' : W) × (for_each (flush_camera g debug) cs (s, w)
            ≡ ok (with_frames s fs, w'))
          × (length fs ≡ length s.frames)
          × HoldsAt (length cs + n) (with_frames s fs)
    flush_cameras [] n s w chains holds shows =
        let sum : 0 + n ≡ n = omega arith in (s.frames, w, refl, refl, rw sum holds)
    flush_cameras (c ∷ cs) n s w chains holds shows =
        let (fs, w1, run, len, holds1) = flush_camera-Shows c n s w chains.0 holds shows in
        let (fs', w2, run', len', (f, at_index, holds2)) =
          flush_cameras cs (suc n) (with_frames s fs) w1 chains.1 holds1
            (Shows-with_frames s fs shows) in
        let sum : length cs + suc n ≡ suc (length cs) + n = omega arith in
        (fs', w2, rw run run', len' ∙ len, (f, at_index, rw sum at holds2))

  -- Between two frames: there are two frames' data, every camera's window has a swap chain, and the
  -- draw calls refer to the objects.
  pub record Ready (s : SystemRenderer M) (os : List (Object M)) : Type 0 where
    pub two_frames : length s.frames ≡ frame_buffer_count
    pub chains : All (HasChain s) s.cameras_to_render
    pub shows : Shows s s.draw_calls os

get_elem?-some :
    {A : Type 0} (xs : List A) (i : ℕ) → i < length xs → (x : A) × (get_elem? xs i ≡ some x)
get_elem?-some [] i h = elim h [ ]
get_elem?-some (x ∷ xs) zero h = (x, refl)
get_elem?-some (x ∷ xs) (suc i) h = get_elem?-some xs i (omega arith)

-- Where the draw calls refer to submitted objects and every camera's window has a swap chain,
-- `flush` returns, if command lists and images can be had: no index and no key is missing. The
-- renderer is ready for the next frame with no cameras, draw calls and instances; the next frame's
-- data holds one fence, semaphore and command list for each camera; the meshes and the materials
-- are still there.
pub flush-Ready :
    {M W : Type 0} (g : Gfx M W) (debug : Bool) (s : SystemRenderer M) (w : W)
    (os : List (Object M))
    → Works g
    → Ready g s os
    → (s' : SystemRenderer M) × (w' : W) × (flush g debug s w ≡ ok (s', w'))
      × Ready g s' []
      × (s'.cameras_to_render ≡ [])
      × (s'.draw_calls ≡ [])
      × (s'.instances ≡ [])
      × (s'.frame_index ≡ (s.frame_index + 1) % frame_buffer_count)
      × ((f : FrameData) × (get_elem? s'.frames s'.frame_index ≡ some f)
          × Holds g (length s.cameras_to_render) f)
      × (s'.meshes ≡ s.meshes)
      × (s'.materials ≡ s.materials)
unfolding flush
flush-Ready g debug s w os works ready =
    let index = (s.frame_index + 1) % frame_buffer_count in
    let inside : index < length s.frames = omega (arith, ready.two_frames) in
    let (frame, found) = get_elem?-some s.frames index inside in
    let w1 = perform_each g debug wait_on_fence frame.fences w in
    let w2 = perform_each g debug destroy_semaphore frame.semaphores w1 in
    let w3 = perform_each g debug destroy_command_list frame.command_lists w2 in
    let cleared : FrameData = record { fences = []; semaphores = []; command_lists = [] } in
    let begun : SystemRenderer _ = record s {
      frame_index = index;
      frames = set s.frames index cleared;
    } in
    let set_length = length-set s.frames index cleared in
    let (fs, w', run, len, (f, at_index, holds)) =
      flush_cameras g works debug s.cameras_to_render 0 begun w3 ready.chains
        (cleared, get_elem?-set_self s.frames index cleared inside, (refl, refl, refl))
        (Shows-begun g s index _ ready.shows) in
    let s' : SystemRenderer _ = record begun {
      frames = fs;
      cameras_to_render = [];
      draw_calls = [];
      instances = [];
    } in
    let sum : length s.cameras_to_render + 0 ≡ length s.cameras_to_render = omega arith in
    (
      s',
      w',
      rw (found, run),
      record { two_frames = len ∙ set_length ∙ ready.two_frames; chains = tt; shows = nothing },
      refl,
      refl,
      refl,
      refl,
      (f, at_index, rw sum at holds),
      refl,
      refl,
    )
