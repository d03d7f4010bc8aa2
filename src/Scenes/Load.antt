-- ===== src/Scenes/Load.antt =====
-- Loading a scene makes its entities and loads the resources that they refer to.
use rune_old.Base.{
  ℕ, ◌≡◌, refl, Bool, Option, none, some, List, [], ◌∷◌, ◌++◌, map, if◌then◌else◌, Bytes, codes,
  All, ok, for_each, true, false, ◌∙◌, ap, subst, append-nil, append_assoc,
}
use rune_old.Scenes.Stored.{Components, Stores, Built, Keeps, create-Built, emplace-Built}
use rune_old.Maps.{upsert, nat_eq}
use rune_old.Paths.{join}
use rune_old.Resources.{SystemResources}
use rune_old.Resources.Invariant.{Sound}
use rune_old.Resources.Types.{ResourceId}
use rune_old.Scenes.{
  Registry, SystemScene, SceneFile, load_static_renderer, add_transform, add_static_renderer,
  add_script, load_entity, load_scene,
}
use rune_old.Scenes.Gets.{
  Loadable, Gets, All-halves, Gets-none, Gets-append, Loadable-kept, load_handle-Gets,
  load_materials-Gets,
}
use rune_old.Scenes.Specs.{
  EntitySpec, renderer_node, map_option, entity_node, renderer_ids, ids, renderer_of, components_of,
  Holds, Holds-more,
}

module _ {Reg T : Type 0} (g : Registry Reg T) (is_valid : ℕ → Reg → Bool)
    (components : ℕ → Reg → Components T) (stores : Stores is_valid components g) {before : Reg}
    {entity : ℕ} where
  add_transform-Built :
      (t : Option T) {c : Components T} (reg : Reg)
      → Built is_valid components before entity c reg
      → c.transform ≡ none
      → (reg' : Reg) × (add_transform g entity (map_option some t) reg ≡ ok reg')
        × Built is_valid components before entity (record c { transform = t }) reg'
  unfolding add_transform
  add_transform-Built none {c} reg b lacks = (
    reg,
    refl,
    subst (λ o. Built is_valid components before entity (record c { transform = o }) reg) lacks b,
  )
  add_transform-Built (some t) reg b lacks = (
    g.emplace_transform entity t reg,
    refl,
    emplace-Built is_valid components (stores.transforms t) b lacks,
  )

  add_script-Built :
      (name : Option Bytes) {c : Components T} (reg : Reg)
      → Built is_valid components before entity c reg
      → c.script ≡ none
      → (reg' : Reg) × (add_script g entity (map_option some name) reg ≡ ok reg')
        × Built is_valid components before entity (record c { script = name }) reg'
  unfolding add_script
  add_script-Built none {c} reg b lacks = (
    reg,
    refl,
    subst (λ o. Built is_valid components before entity (record c { script = o }) reg) lacks b,
  )
  add_script-Built (some name) reg b lacks = (
    g.emplace_script entity name reg,
    refl,
    emplace-Built is_valid components (stores.scripts name) b lacks,
  )

  add_camera-Built :
      (camera : Bool) (window : ℕ) {c : Components T} (reg : Reg)
      → Built is_valid components before entity c reg
      → c.camera ≡ none
      → Built is_valid components before entity
          (record c { camera = if camera then some window else none })
          (if camera then g.emplace_camera entity window reg else reg)
  add_camera-Built false window {c} reg b lacks =
      subst (λ o. Built is_valid components before entity (record c { camera = o }) reg) lacks b
  add_camera-Built true window reg b lacks =
      emplace-Built is_valid components (stores.cameras window) b lacks

module _ {Res Reg T : Type 0} (debug : Bool) (rank : ResourceId → ℕ) (fuel : ℕ) (g : Registry Reg T)
    (is_valid : ℕ → Reg → Bool) (components : ℕ → Reg → Components T)
    (stores : Stores is_valid components g) where
  add_static_renderer-Gets :
      {before : Reg} (entity : ℕ) (r : Option (ResourceId × List ResourceId)) {c : Components T}
      (reg : Reg) (s : SystemResources Res)
      → Built is_valid components before entity c reg
      → c.renderer ≡ none
      → Sound rank s
      → All (Loadable debug rank fuel s) (renderer_ids r)
      → (reg' : Reg) × (s' : SystemResources Res) × (add_static_renderer g debug fuel entity
            (map_option renderer_node r)
            reg
            s
          ≡ ok (reg', s'))
        × Built is_valid components before entity
            (record c { renderer = map_option renderer_of r })
            reg'
        × Gets debug rank fuel (renderer_ids r) s s'
  unfolding add_static_renderer load_static_renderer
  add_static_renderer-Gets {before} entity none {c} reg s b lacks sound h = (
    reg,
    s,
    refl,
    subst (λ o. Built is_valid components before entity (record c { renderer = o }) reg) lacks b,
    Gets-none debug rank fuel s sound,
  )
  add_static_renderer-Gets entity (some (mesh, materials)) reg s b lacks sound h =
      let (t, run, gets) = load_handle-Gets debug rank fuel mesh s sound h.0 in
      let (u, run', gets') =
        load_materials-Gets debug rank fuel materials [] t gets.sound
          (Loadable-kept debug rank fuel s t materials gets.extends h.1) in
      let renderer = renderer_of (mesh, materials) in
      (
        g.emplace_static_renderer entity renderer reg,
        u,
        rw (run, run'),
        emplace-Built is_valid components (stores.renderers renderer) b lacks,
        Gets-append debug rank fuel (mesh ∷ []) materials s t u gets gets',
      )

  load_entity-Gets :
      (window : ℕ) (e : EntitySpec T) (reg : Reg) (es : List ℕ) (s : SystemResources Res)
      → Sound rank s
      → All (Loadable debug rank fuel s) (renderer_ids e.renderer)
      → (reg' : Reg) × (entity : ℕ) × (s' : SystemResources Res) × (load_entity g debug fuel window
            (entity_node e)
            (reg, es, s)
          ≡ ok (reg', es ++ entity ∷ [], s'))
        × Built is_valid components reg entity (components_of window e) reg'
        × Gets debug rank fuel (renderer_ids e.renderer) s s'
  unfolding load_entity
  load_entity-Gets window e reg es s sound h =
      let (entity, reg1) = g.create reg in
      let made = create-Built is_valid components g reg stores in
      let (reg2, run, built2) =
        add_transform-Built g is_valid components stores e.transform (g.create reg).1 made refl in
      let (reg3, s', run', built3, gets) =
        add_static_renderer-Gets entity e.renderer reg2 s built2 refl sound h in
      let reg4 = if e.camera then g.emplace_camera entity window reg3 else reg3 in
      let built4 = add_camera-Built g is_valid components stores e.camera window reg3 built3 refl in
      let (reg5, run'', built5) =
        add_script-Built g is_valid components stores e.script reg4 built4 refl in
      (reg5, entity, s', rw (run, run', run''), built5, gets)

  load_entities-Gets :
      (window : ℕ) (specs : List (EntitySpec T)) (reg : Reg) (es : List ℕ) (s : SystemResources Res)
      → Sound rank s
      → All (Loadable debug rank fuel s) (ids specs)
      → (reg' : Reg) × (new : List ℕ) × (s' : SystemResources Res) × (for_each
            (load_entity g debug fuel window)
            (map entity_node specs)
            (reg, es, s)
          ≡ ok (reg', es ++ new, s'))
        × Holds is_valid components window reg reg' new specs
        × Keeps is_valid components reg reg'
        × Gets debug rank fuel (ids specs) s s'
  load_entities-Gets window [] reg es s sound h =
      (reg, [], s, rw append-nil refl, tt, λ j v. (v, refl), Gets-none debug rank fuel s sound)
  load_entities-Gets window (e ∷ specs) reg es s sound h =
      let (here, later) = All-halves _ (renderer_ids e.renderer) (ids specs) h in
      let (reg1, entity, t, run, built, gets) = load_entity-Gets window e reg es s sound here in
      let (reg2, new, u, run', holds, keeps, gets') =
        load_entities-Gets window specs reg1 (es ++ entity ∷ []) t gets.sound
          (Loadable-kept debug rank fuel s t (ids specs) gets.extends later) in
      (
        reg2,
        entity ∷ new,
        u,
        rw run (run' ∙ ap (λ (xs : List ℕ). ok (reg2, xs, u)) (append_assoc es (entity ∷ []) new)),
        Holds-more is_valid components window reg reg1 reg2 entity e new specs built keeps holds,
        λ j v. let k = built.keeps j v in ((keeps j k.0).0, (keeps j k.0).1 ∙ k.1),
        Gets-append debug rank fuel (renderer_ids e.renderer) (ids specs) s t u gets gets',
      )

-- In a sound table, and with fuel above the ranks of the resources, `load_scene` returns on a file of
-- entities whose nodes can be read and refer to registered resources, over a registry that creates
-- new entities and stores components. It makes a new entity for each node, which has the components
-- of that node and no others, and leaves the entities of before and their components; it puts the
-- new ones, in the order of the nodes, behind those of the scene's entry; and every mesh and every
-- material that the nodes refer to is loaded. The table is sound again, and what was loaded before
-- still is.
pub load_scene-Gets :
    {Res Reg T : Type 0} (debug : Bool) (rank : ResourceId → ℕ) (fuel : ℕ) (g : Registry Reg T)
    (is_valid : ℕ → Reg → Bool) (components : ℕ → Reg → Components T) (window : ℕ)
    (strid : Bytes → ℕ) (load_yaml : Bytes → Option (SceneFile T)) (filename : Bytes)
    (specs : List (EntitySpec T)) (scene : SystemScene Reg) (s : SystemResources Res)
    → Stores is_valid components g
    → Sound rank s
    → All (Loadable debug rank fuel s) (ids specs)
    → load_yaml (join (codes "../../data") filename)
      ≡ some (record { entities = some (map entity_node specs) })
    → (scene' : SystemScene Reg) × (s' : SystemResources Res) × (load_scene g debug fuel window
          strid load_yaml filename scene s
        ≡ ok (scene', s'))
      × Gets debug rank fuel (ids specs) s s'
      × Keeps is_valid components scene.registry scene'.registry
      × ((es : List ℕ) × Holds is_valid components window scene.registry scene'.registry es specs
          × (scene'.loaded_scene_map
              ≡ upsert
                  (strid (join (codes "../../data") filename))
                  []
                  (λ old. old ++ es)
                  scene.loaded_scene_map))
unfolding load_scene
load_scene-Gets debug rank fuel g is_valid components window strid load_yaml filename specs scene s
      stores sound h file =
    let (reg, es, s', run, holds, keeps, gets) =
      load_entities-Gets debug rank fuel g is_valid components stores window specs scene.registry []
        s sound h in
    let path = join (codes "../../data") filename in
    (
      record {
        registry = reg;
        loaded_scene_map = upsert (strid path) [] (λ old. old ++ es) scene.loaded_scene_map;
      },
      s',
      rw (file, run),
      gets,
      keeps,
      (es, holds, refl),
    )
