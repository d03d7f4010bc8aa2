-- ===== src/Scenes/Update.antt =====
-- Rune/src/scenes/system_scene.cpp: the three loops of `SystemScene::update`. What a script does is a
-- parameter: it may change the registry and the rest of the program, or throw.
use rune_old.Base.{
  ℕ, Option, none, some, List, [], ◌∷◌, ◌==◌, if◌then◌else◌, Bytes, codes, Outcome, ok, ◌>>=◌,
  for_each,
}
use rune_old.Platform.{Glfw, Platform, get_window_size_pixels}
use rune_old.Renderer.{
  RenderMesh, MaterialPtr, SystemRenderer, Gfx, render_static_mesh, render_camera,
}
use rune_old.Resources.{SystemResources}
use rune_old.Resources.Handles.{ResourceHandle, is_loaded, get}
use rune_old.Scenes.{StaticRenderer}
use rune_old.Scenes.Frame.{
  Glm, Transform, CameraControl, CameraEntity, move_camera, view_matrix, projection, world_matrix,
}

-- `static_cast<T*>` of a pointer.
abbrev pub cast_to {ℓ κ} : {A : Type ℓ} {B : Type κ} → (A → B) → Option A → Option B
cast_to f none = none
cast_to f (some a) = some (f a)

-- The views of the registry that `update` walks, and the change of a transform in it.
pub record Views (Reg V3 Q : Type 0) : Type 0 where
  pub scripts : Reg → List ℕ
  pub script_of : ℕ → Reg → Option Bytes
  pub cameras : Reg → List (ℕ × CameraEntity V3 Q)
  pub renderers : Reg → List (Transform V3 Q × StaticRenderer)
  pub store_transform : ℕ → Transform V3 Q → Reg → Reg

-- The static mesh and the material that a resource is.
pub record Casts (Res : Type 0) : Type 0 where
  pub as_mesh : Res → RenderMesh
  pub as_material : Res → ℕ

pub record Frame (Reg I V2 M W : Type 0) : Type 0 where
  pub registry : Reg
  pub control : CameraControl I V2
  pub renderer : SystemRenderer M
  pub world : W

module _ {F I V2 V3 Q M : Type 0} (m : Glm F I V2 V3 Q M) where
  module _ {Res : Type 0} (casts : Casts Res) (resources : SystemResources Res) where
    -- The loop over the materials.
    unfoldable pub get_materials : List ResourceHandle → Outcome (List MaterialPtr)
    get_materials [] = ok []
    get_materials (h ∷ hs) = do
      material ← get h resources
      rest ← get_materials hs
      ok (cast_to casts.as_material material ∷ rest)

    -- The body of the loop over the static renderers.
    unfoldable pub submit_renderer :
        Transform V3 Q × StaticRenderer → SystemRenderer M → Outcome (SystemRenderer M)
    submit_renderer (t, r) s = do
      loaded ← is_loaded r.mesh resources
      if loaded
          then (do
            materials ← get_materials r.materials
            mesh ← get r.mesh resources
            render_static_mesh (cast_to casts.as_mesh mesh) materials (world_matrix m t) s)
          else ok s

    unfoldable pub submit_renderers :
        List (Transform V3 Q × StaticRenderer) → SystemRenderer M → Outcome (SystemRenderer M)
    submit_renderers = for_each submit_renderer

  module _ {Reg W : Type 0} (views : Views Reg V3 Q) (gfx : Gfx M W) (g : Glfw F) (delta_time : F)
      (platform : Platform) where
    -- The body of the loop over the cameras: one without a window is passed over.
    unfoldable pub update_camera : ℕ → CameraEntity V3 Q → Frame Reg I V2 M W → Frame Reg I V2 M W
    update_camera entity c f =
        if c.target_window == 0
        then f
        else (let moved = move_camera m g delta_time platform c f.control in
            let size = get_window_size_pixels g c.target_window platform in
            let rendered =
              render_camera gfx
                (record {
                  target_window = c.target_window;
                  width = size.0;
                  height = size.1;
                  proj_matrix = projection m size;
                  view_matrix = view_matrix m moved.0.transform;
                })
                f.renderer f.world in
            record {
              registry = views.store_transform entity moved.0.transform f.registry;
              control = moved.1;
              renderer = rendered.0;
              world = rendered.1;
            })

    unfoldable pub update_cameras :
        List (ℕ × CameraEntity V3 Q) → Frame Reg I V2 M W → Frame Reg I V2 M W
    update_cameras [] f = f
    update_cameras ((entity, c) ∷ cs) f = update_cameras cs (update_camera entity c f)

    module _ (invoke_method : Bytes → Bytes → ℕ → Reg → W → Outcome (Reg × W)) where
      -- The loop over the scripts, through the entities that have one when it starts. What a script
      -- may do to the registry is to make and to destroy entities and to move them; an entity that
      -- was destroyed has no script any more when its turn comes.
      unfoldable pub update_scripts : List ℕ → Reg → W → Outcome (Reg × W)
      update_scripts [] reg w = ok (reg, w)
      update_scripts (entity ∷ es) reg w = elim (views.script_of entity reg) [
        | none ↦ update_scripts es reg w
        | some script_class ↦ do
          r ← invoke_method script_class (codes "Update") entity reg w
          update_scripts es r.0 r.1
      ]

      unfoldable pub update :
          {Res : Type 0}
          → Casts Res
          → SystemResources Res
          → Frame Reg I V2 M W
          → Outcome (Frame Reg I V2 M W)
      update casts resources f = do
        r ← update_scripts (views.scripts f.registry) f.registry f.world
        let scripted = record f { registry = r.0; world = r.1 }
        let filmed = update_cameras (views.cameras scripted.registry) scripted
        renderer ←
            submit_renderers casts resources (views.renderers filmed.registry) filmed.renderer
        ok (record filmed { renderer = renderer })
