-- ===== src/Scenes.antt =====
-- Rune/include/rune/scenes/system_scene.hpp and Rune/src/scenes/system_scene.cpp: the entities of
-- `SystemScene` and the loading of a scene file. The entity registry is a parameter over its state
-- `Reg`, and so is the YAML library; transforms are of a type `T`.
pub mod Gets
pub mod Stored
pub mod Specs
pub mod Load
pub mod Frame
pub mod Update
pub mod Drawn
mod Tests
pub mod Samples
mod FrameTests
use rune_old.Base.{
  ℕ, Bool, true, false, Option, none, some, List, [], ◌∷◌, ◌++◌, if◌then◌else◌, Bytes, codes,
  Outcome, ok, fault, ◌>>=◌, or_fault, for_each, exception_thrown,
}
use rune_old.Maps.{upsert, nat_eq}
use rune_old.Paths.{join}
use rune_old.Resources.{SystemResources, load}
use rune_old.Resources.Handles.{ResourceHandle, get_ptr}
use rune_old.Resources.Types.{ResourceId}

pub record StaticRenderer : Type 0 where
  pub mesh : ResourceHandle
  pub materials : List ResourceHandle

pub record Registry (Reg T : Type 0) : Type 0 where
  pub no_entities : Reg
  pub create : Reg → ℕ × Reg
  pub destroy : ℕ → Reg → Reg
  pub emplace_transform : ℕ → T → Reg → Reg
  pub emplace_static_renderer : ℕ → StaticRenderer → Reg → Reg
  pub emplace_camera : ℕ → ℕ → Reg → Reg
  pub emplace_script : ℕ → Bytes → Reg → Reg

-- The file name in `LoadedSceneData` is not set.
pub record SystemScene (Reg : Type 0) : Type 0 where
  pub registry : Reg
  pub loaded_scene_map : List (ℕ × List ℕ)

-- A node of the scene file, as the YAML library reads it: a part is `none` where it is missing, and a
-- value where it cannot be converted.
pub record RendererNode : Type 0 where
  pub mesh : Option ℕ
  pub materials : List (Option ℕ)

pub record EntityNode (T : Type 0) : Type 0 where
  pub transform : Option (Option T)
  pub static_renderer : Option RendererNode
  pub camera : Bool
  pub script_class : Option (Option Bytes)

pub record SceneFile (T : Type 0) : Type 0 where
  pub entities : Option (List (EntityNode T))

module _ {Res : Type 0} (debug : Bool) (fuel : ℕ) where
  -- A handle is taken ahead of the load.
  unfoldable pub load_handle :
      ResourceId → SystemResources Res → Outcome (ResourceHandle × SystemResources Res)
  load_handle id s = do h ← get_ptr id s; s' ← load debug fuel id s; ok (h, s')

  unfoldable pub load_materials :
      List (Option ℕ)
      → List ResourceHandle
      → SystemResources Res
      → Outcome (List ResourceHandle × SystemResources Res)
  load_materials [] hs s = ok (hs, s)
  load_materials (n ∷ ns) hs s = do
    id ← or_fault n exception_thrown
    r ← load_handle id s
    load_materials ns (hs ++ r.0 ∷ []) r.1

  unfoldable pub load_static_renderer :
      RendererNode → SystemResources Res → Outcome (StaticRenderer × SystemResources Res)
  load_static_renderer node s = do
    id ← or_fault node.mesh exception_thrown
    m ← load_handle id s
    ms ← load_materials node.materials [] m.1
    ok (record { mesh = m.0; materials = ms.0 }, ms.1)

module _ {Reg T : Type 0} (g : Registry Reg T) where
  unfoldable pub clear_scene : SystemScene Reg → SystemScene Reg
  clear_scene s = record s { registry = g.no_entities }

  unfoldable pub create_entity : SystemScene Reg → ℕ × SystemScene Reg
  create_entity s =
      let (entity, registry) = g.create s.registry in (entity, record s { registry = registry })

  unfoldable pub destroy_entity : ℕ → SystemScene Reg → SystemScene Reg
  destroy_entity entity s = record s { registry = g.destroy entity s.registry }

  -- The components of an entity, one after the other.
  unfoldable pub add_transform : ℕ → Option (Option T) → Reg → Outcome Reg
  add_transform entity none reg = ok reg
  add_transform entity (some node) reg = do
    t ← or_fault node exception_thrown
    ok (g.emplace_transform entity t reg)

  unfoldable pub add_script : ℕ → Option (Option Bytes) → Reg → Outcome Reg
  add_script entity none reg = ok reg
  add_script entity (some node) reg = do
    name ← or_fault node exception_thrown
    ok (g.emplace_script entity name reg)

  module _ {Res : Type 0} (debug : Bool) (fuel : ℕ) where
    unfoldable pub add_static_renderer :
        ℕ → Option RendererNode → Reg → SystemResources Res → Outcome (Reg × SystemResources Res)
    add_static_renderer entity none reg s = ok (reg, s)
    add_static_renderer entity (some node) reg s = do
      r ← load_static_renderer debug fuel node s
      ok (g.emplace_static_renderer entity r.0 reg, r.1)

    module _ (primary_window : ℕ) where
      -- The body of the loop over the nodes; the list holds the entities of the scene.
      unfoldable pub load_entity :
          EntityNode T
          → Reg × List ℕ × SystemResources Res
          → Outcome (Reg × List ℕ × SystemResources Res)
      load_entity node (reg, es, s) = do
        let (entity, reg1) = g.create reg
        reg2 ← add_transform entity node.transform reg1
        r ← add_static_renderer entity node.static_renderer reg2 s
        let reg3 = if node.camera then g.emplace_camera entity primary_window r.0 else r.0
        reg4 ← add_script entity node.script_class reg3
        ok (reg4, es ++ entity ∷ [], r.1)

      unfoldable pub load_scene :
          (Bytes → ℕ)
          → (Bytes → Option (SceneFile T))
          → Bytes
          → SystemScene Reg
          → SystemResources Res
          → Outcome (SystemScene Reg × SystemResources Res)
      load_scene strid load_yaml filename scene s = do
        let path = join (codes "../../data") filename
        file ← or_fault (load_yaml path) exception_thrown
        elim file.entities [
          | none ↦ ok (scene, s)
          | some nodes ↦ do
            r ← for_each load_entity nodes (scene.registry, [], s)
            ok (
              record {
                registry = r.0;
                loaded_scene_map = upsert (strid path) [] (λ es. es ++ r.1) scene.loaded_scene_map;
              },
              r.2,
            )
        ]
