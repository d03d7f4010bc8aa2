-- ===== src/Scenes/Drawn.antt =====
-- What a frame of the scene draws: the renderers whose mesh and first material are loaded, through the handles of the
-- resources and the renderer's lists to the calls of the graphics library.
use rune_old.Base.{
  ℕ, ◌≡◌, refl, ◌∙◌, true, false, some, List, [], ◌∷◌, length, ok, for_each, bind-ap,
}
use rune_old.Renderer.{MaterialPtr, SystemRenderer, Gfx, geometry_pass}
use rune_old.Renderer.Submit.{Object, submit, Room, draw_objects, bind_scene, geometry_pass-submit}
use rune_old.Resources.{SystemResources}
use rune_old.Resources.Handles.{is_loaded, get}
use rune_old.Scenes.{StaticRenderer}
use rune_old.Scenes.Frame.{Glm, Transform, world_matrix}
use rune_old.Scenes.Update.{Casts, get_materials, submit_renderer, submit_renderers}

module _ {F I V2 V3 Q M Res : Type 0} (m : Glm F I V2 V3 Q M) (casts : Casts Res)
    (resources : SystemResources Res) where
  -- The renderers show the objects: a renderer whose mesh is not loaded shows none, and one whose
  -- mesh is loaded and whose first material is there shows its mesh with that material where its
  -- transform puts it.
  pub data Pictures : List (Transform V3 Q × StaticRenderer) → List (Object M) → Type 0 where
    nothing : Pictures [] []
    not_shown :
        {t : Transform V3 Q} {r : StaticRenderer} {rs : List (Transform V3 Q × StaticRenderer)}
        {os : List (Object M)}
        → is_loaded r.mesh resources ≡ ok false
        → Pictures rs os
        → Pictures ((t, r) ∷ rs) os
    shown :
        {t : Transform V3 Q} {r : StaticRenderer} {rs : List (Transform V3 Q × StaticRenderer)}
        {os : List (Object M)} {mesh first : Res} {others : List MaterialPtr}
        → is_loaded r.mesh resources ≡ ok true
        → get r.mesh resources ≡ ok (some mesh)
        → get_materials m casts resources r.materials ≡ ok (some (casts.as_material first) ∷ others)
        → Pictures rs os
        → Pictures ((t, r) ∷ rs) (
            record {
              mesh = casts.as_mesh mesh;
              material = casts.as_material first;
              others = others;
              transform = world_matrix m t;
            }
            ∷ os)

  pub submit_renderers-Pictures :
      {rs : List (Transform V3 Q × StaticRenderer)} {os : List (Object M)} (s : SystemRenderer M)
      → Pictures rs os
      → submit_renderers m casts resources rs s ≡ for_each submit os s
  unfolding submit_renderers submit_renderer
  submit_renderers-Pictures s nothing = refl
  submit_renderers-Pictures s (not_shown h rest) = rw (h) (submit_renderers-Pictures s rest)
  submit_renderers-Pictures s (shown loaded mesh materials rest) =
      rw (loaded, materials, mesh)
        (bind-ap (submit _ s) _ _ (λ s'. submit_renderers-Pictures s' rest))

  -- A frame draws what the scene shows, where each static renderer has a mesh that is not loaded, or
  -- a loaded mesh and a first material that is there and loaded. From a renderer with no draw calls,
  -- and with room for the indices, the loop over the static renderers returns, and the geometry pass
  -- then returns too: behind the bindings of the scene it makes, in the order of the view, the calls
  -- that draw the object of each renderer of the second kind, and none for the others.
  pub geometry_pass-submit_renderers :
      {W : Type 0} (g : Gfx M W) (cmd : ℕ) {rs : List (Transform V3 Q × StaticRenderer)}
      {os : List (Object M)} (s : SystemRenderer M) (w : W)
      → Pictures rs os
      → s.draw_calls ≡ []
      → Room (length os) s
      → (s' : SystemRenderer M) × (submit_renderers m casts resources rs s ≡ ok s')
        × (geometry_pass g cmd s' w
            ≡ ok (draw_objects g cmd os (bind_scene g cmd s.pipeline s.descriptor_set w)))
  geometry_pass-submit_renderers g cmd {os = os} s w pictures empty room =
      let (s', run, draws) = geometry_pass-submit g cmd os s w empty room in
      (s', submit_renderers-Pictures s pictures ∙ run, draws)
