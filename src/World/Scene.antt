-- ===== src/World/Scene.antt =====
-- A frame of the scene, where no script throws: it leaves the renderer ready to show the objects.
use rune_old.Base.{
  Option-cases, inl, inr, ℕ, ◌≤◌, ◌≡◌, refl, ap, ◌∙◌, List, [], ◌∷◌, All, arith, length, Bytes,
  Outcome, ok, codes, ◌+◌,
}
use rune_old.Maps.{find, nat_eq}
use rune_old.Platform
use rune_old.Platform.{GlfwCall, glfw_poll_events, glfw_set_window_title}
use rune_old.Renderer.{RenderCamera, SystemRenderer, Gfx}
use rune_old.Renderer.Flush
use rune_old.Renderer.Flush.{HasChain, Works, flush-Ready}
use rune_old.Renderer.Submit.{Object, nothing, Room, submit_all}
use rune_old.Resources.{SystemResources}
use rune_old.Scenes.Drawn.{Pictures, submit_renderers-Pictures}
use rune_old.Scenes.Update
use rune_old.Scenes.Frame.{Transform}
use rune_old.Scenes.Update.{Views, Frame, update_scripts, update_cameras}
use rune_old.World.Cameras.{update_cameras-Filmed, update_cameras-Fine}
use rune_old.World.{Parts}

chains-same :
    {M W : Type 0} (g : Gfx M W) (s s' : SystemRenderer M) (cs : List (RenderCamera M))
    → s'.swapchain_map ≡ s.swapchain_map
    → All (HasChain g s) cs
    → All (HasChain g s') cs
chains-same g s s' [] e h = tt
chains-same g s s' (c ∷ cs) e ((chain, found), h) =
    ((chain, ap (find c.target_window) e ∙ found), chains-same g s s' cs e h)

module _ {Reg : Type 0} (Fine : Reg → Type 0) where
  -- No script throws, and scripts keep a property of registries.
  abbrev pub ScriptsReturn :
      {W : Type 0} → (Bytes → Bytes → ℕ → Reg → W → Outcome (Reg × W)) → Type 0
  ScriptsReturn {W = W} invoke_method =
      (script_class method : Bytes) (entity : ℕ) (reg : Reg) (w : W)
      → Fine reg
      → (reg' : Reg) × (w' : W) × (invoke_method script_class method entity reg w ≡ ok (reg', w'))
        × Fine reg'

  -- The change of a transform keeps a property of registries.
  abbrev pub MovesKeep : {V3 Q : Type 0} → Views Reg V3 Q → Type 0
  MovesKeep {V3 = V3} {Q = Q} views =
      (entity : ℕ) (t : Transform V3 Q) (reg : Reg)
      → Fine reg
      → Fine (views.store_transform entity t reg)

module _ {F I V2 V3 Q M Reg R G W Res : Type 0} (parts : Parts F I V2 V3 Q M Reg R G W Res)
    (delta_time : F) (Fine : Reg → Type 0) where
  module _ (window_system : Platform.Platform) where
    update_scripts-returns :
        (es : List ℕ) (reg : Reg) (w : W)
        → ScriptsReturn Fine parts.invoke_method
        → Fine reg
        → (reg' : Reg) × (w' : W) × (update_scripts parts.glm parts.views parts.gfx parts.glfw
              delta_time window_system parts.invoke_method es reg w
            ≡ ok (reg', w'))
          × Fine reg'
    unfolding update_scripts
    update_scripts-returns [] reg w returns fine = (reg, w, refl, fine)
    update_scripts-returns (entity ∷ es) reg w returns fine =
        elim (Option-cases (parts.views.script_of entity reg)) [
          | inl gone ↦
              let (reg', w', rest, fine') = update_scripts-returns es reg w returns fine in
              (reg', w', rw (update_scripts, gone) rest, fine')
          | inr (script_class, there) ↦
              let (reg1, w1, run, fine1) =
                returns script_class (codes "Update") entity reg w fine in
              let (reg2, w2, rest, fine2) = update_scripts-returns es reg1 w1 returns fine1 in
              (reg2, w2, rw (update_scripts, there, run) rest, fine2)
        ]

    -- The update of the scene, which leaves the renderer ready to show the objects.
    pub update-Ready :
        (resources : SystemResources Res) (f : Frame Reg I V2 M W) (objects : Reg → List (Object M))
        (n k : ℕ)
        → ScriptsReturn Fine parts.invoke_method
        → MovesKeep Fine parts.views
        → ((reg : Reg)
            → Fine reg
            → Pictures parts.glm parts.casts resources (parts.views.renderers reg) (objects reg))
        → ((reg : Reg) → Fine reg → length (objects reg) ≤ n)
        → Fine f.registry
        → Room (n + k) f.renderer
        → f.renderer.draw_calls ≡ []
        → Flush.Ready parts.gfx f.renderer []
        → (f' : Frame Reg I V2 M W) × (Update.update parts.glm parts.views parts.gfx parts.glfw
              delta_time window_system parts.invoke_method parts.casts resources f
            ≡ ok f')
          × Flush.Ready parts.gfx f'.renderer (objects f'.registry)
          × Room k f'.renderer
          × Fine f'.registry
    unfolding Update.update
    update-Ready resources f objects n k returns moves pictures bounded fine room empty ready =
        let (reg', w', ran, fine') =
          update_scripts-returns (parts.views.scripts f.registry) f.registry f.world returns fine in
        let scripted : Frame _ _ _ _ _ = record f { registry = reg'; world = w' } in
        let filmed =
          update_cameras parts.glm parts.views parts.gfx parts.glfw delta_time window_system
            (parts.views.cameras reg') scripted in
        let kept =
          update_cameras-Filmed parts.glm parts.views parts.gfx parts.glfw delta_time window_system
            (parts.views.cameras reg') scripted in
        let still =
          update_cameras-Fine parts.glm parts.views parts.gfx parts.glfw delta_time window_system
            Fine moves (parts.views.cameras reg') scripted fine' in
        let os = objects filmed.registry in
        let bound = bounded filmed.registry still in
        let roomy = kept.same_room (n + k) room in
        let enough : Room (length os) filmed.renderer = (omega arith, omega arith, omega arith) in
        let left : Room (length os + k) filmed.renderer = (omega arith, omega arith, omega arith) in
        let none_yet : filmed.renderer.draw_calls ≡ [] = kept.same_calls ∙ empty in
        let (s', run, shows, _, _, frames, cameras, chains, room') =
          submit_all os [] filmed.renderer enough (rw none_yet nothing) in
        let f' : Frame _ _ _ _ _ = record filmed { renderer = s' } in
        let submitted =
          submit_renderers-Pictures parts.glm parts.casts resources filmed.renderer
            (pictures filmed.registry still)
          ∙ run in
        (
          f',
          rw (Update.update, ran, submitted) refl,
          record {
            two_frames = ap length (frames ∙ kept.same_frames) ∙ ready.two_frames;
            chains = rw cameras (
                chains-same parts.gfx filmed.renderer s' filmed.renderer.cameras_to_render chains
                  (kept.chains_kept ready.chains));
            shows = shows;
          },
          room' k left,
          still,
        )
