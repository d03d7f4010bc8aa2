-- ===== src/World/Cameras.antt =====
-- A frame of the scene leaves the renderer ready for `flush`: a camera is taken up behind a swap
-- chain, and what is submitted is shown.
use rune_old.Base.{
  ℕ, ◌≡◌, refl, ◌∙◌, true, List, [], ◌∷◌, ◌++◌, ◌==◌, All, Bool-cases, inl, inr, Option-cases,
  arith,
}
use rune_old.Maps.{find, assign, nat_eq}
use rune_old.Maps.Laws.{find-assign}
use rune_old.Platform.{Glfw, Platform}
use rune_old.Renderer.{RenderCamera, SystemRenderer, Gfx, render_camera}
use rune_old.Renderer.Flush.{HasChain}
use rune_old.Renderer.Submit.{Room}
use rune_old.Scenes.Frame.{Glm, Transform, CameraEntity}
use rune_old.Scenes.Update.{Views, Frame, update_camera, update_cameras}

==_refl : (k : ℕ) → (k == k) ≡ true
==_refl k = ground arith

module _ {M W : Type 0} (g : Gfx M W) where
  -- What the cameras of a frame leave of a renderer.
  pub record Filmed (s s' : SystemRenderer M) : Type 0 where
    pub same_frames : s'.frames ≡ s.frames
    pub same_calls : s'.draw_calls ≡ s.draw_calls
    pub same_room : (n : ℕ) → Room n s → Room n s'
    pub chains_kept :
        All (HasChain g s) s.cameras_to_render → All (HasChain g s') s'.cameras_to_render

  HasChain-assign :
      (s : SystemRenderer M) (window chain : ℕ) (cameras cs : List (RenderCamera M))
      → All (HasChain g s) cs
      → All
          (HasChain g (record s {
            swapchain_map = assign window chain s.swapchain_map;
            cameras_to_render = cameras;
          }))
          cs
  HasChain-assign s window chain cameras [] h = tt
  HasChain-assign s window chain cameras (c ∷ cs) ((old, found), h) = (
    elim (Bool-cases (window == c.target_window)) [
      | inl same ↦ (chain, rw (find-assign window c.target_window chain s.swapchain_map, same) refl)
      | inr other ↦
          (old, rw (find-assign window c.target_window chain s.swapchain_map, other) found)
    ],
    HasChain-assign s window chain cameras cs h,
  )

  All-concat :
      {A : Type 0} (P : A → Type 0) (xs : List A) (x : A) → All P xs → P x → All P (xs ++ x ∷ [])
  All-concat P [] x h p = (p, tt)
  All-concat P (y ∷ xs) x h p = (h.0, All-concat P xs x h.1 p)

  render_camera-Filmed :
      (c : RenderCamera M) (s : SystemRenderer M) (w : W) → Filmed s (render_camera g c s w).0
  unfolding render_camera
  render_camera-Filmed c s w = elim (Option-cases (find c.target_window s.swapchain_map)) [
    | inr (chain, found) ↦
        rw (render_camera, found)
          (record {
            same_frames = refl;
            same_calls = refl;
            same_room = λ n r. r;
            chains_kept = λ h. All-concat (HasChain g s) s.cameras_to_render c h (chain, found);
          })
    | inl missing ↦ elim (Option-cases (g.create_swap_chain c.target_window w).0) [
      | inl failed ↦
          rw (render_camera, missing, failed)
            (record {
              same_frames = refl;
              same_calls = refl;
              same_room = λ n r. r;
              chains_kept = λ h. h;
            })
      | inr (chain, created) ↦
          rw (render_camera, missing, created)
            (record {
              same_frames = refl;
              same_calls = refl;
              same_room = λ n r. r;
              chains_kept = λ h.
                  let cameras = s.cameras_to_render ++ c ∷ [] in
                  let found = find-assign c.target_window c.target_window chain s.swapchain_map in
                  All-concat _ s.cameras_to_render c
                    (HasChain-assign s c.target_window chain cameras s.cameras_to_render h)
                    (chain, rw (found, ==_refl c.target_window) refl);
            })
    ]
  ]

  Filmed-refl : (s : SystemRenderer M) → Filmed s s
  Filmed-refl s = record {
    same_frames = refl;
    same_calls = refl;
    same_room = λ n r. r;
    chains_kept = λ h. h;
  }

  Filmed-trans : (s t u : SystemRenderer M) → Filmed s t → Filmed t u → Filmed s u
  Filmed-trans s t u f h = record {
    same_frames = h.same_frames ∙ f.same_frames;
    same_calls = h.same_calls ∙ f.same_calls;
    same_room = λ n r. h.same_room n (f.same_room n r);
    chains_kept = λ a. h.chains_kept (f.chains_kept a);
  }

module _ {F I V2 V3 Q M Reg W : Type 0} (m : Glm F I V2 V3 Q M) (views : Views Reg V3 Q)
    (gfx : Gfx M W) (g : Glfw F) (delta_time : F) (platform : Platform) where
  update_camera-Filmed :
      (entity : ℕ) (c : CameraEntity V3 Q) (f : Frame Reg I V2 M W)
      → Filmed gfx f.renderer (update_camera m views gfx g delta_time platform entity c f).renderer
  unfolding update_camera
  update_camera-Filmed entity c f = elim (Bool-cases (c.target_window == 0)) [
    | inl unset ↦ rw (update_camera, unset) (Filmed-refl gfx f.renderer)
    | inr target ↦ rw (update_camera, target) (render_camera-Filmed gfx _ f.renderer f.world)
  ]

  pub update_cameras-Filmed :
      (cs : List (ℕ × CameraEntity V3 Q)) (f : Frame Reg I V2 M W)
      → Filmed gfx f.renderer (update_cameras m views gfx g delta_time platform cs f).renderer
  unfolding update_cameras
  update_cameras-Filmed [] f = Filmed-refl gfx f.renderer
  update_cameras-Filmed ((entity, c) ∷ cs) f =
      let f' = update_camera m views gfx g delta_time platform entity c f in
      Filmed-trans gfx f.renderer f'.renderer _ (update_camera-Filmed entity c f)
        (update_cameras-Filmed cs f')

  -- A property of registries that a change of a transform keeps.
  pub update_cameras-Fine :
      (Fine : Reg → Type 0)
      → ((entity : ℕ) (t : Transform V3 Q) (reg : Reg)
          → Fine reg
          → Fine (views.store_transform entity t reg))
      → (cs : List (ℕ × CameraEntity V3 Q)) (f : Frame Reg I V2 M W) → Fine f.registry
      → Fine (update_cameras m views gfx g delta_time platform cs f).registry
  unfolding update_cameras update_camera
  update_cameras-Fine Fine moves [] f fine = fine
  update_cameras-Fine Fine moves ((entity, c) ∷ cs) f fine =
      update_cameras-Fine Fine moves cs (update_camera m views gfx g delta_time platform entity c f)
        (elim (Bool-cases (c.target_window == 0)) [
          | inl unset ↦ rw (unset) fine
          | inr target ↦ rw (target) (moves entity _ f.registry fine)
        ])
