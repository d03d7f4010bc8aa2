-- ===== src/Scenes/Tests.antt =====
-- A scene of two entities: one with a mesh and a material, one with a camera.
use mathlib.Core.Option.{some-injective}
use rune_old.Base.{
  Bool, ltb, if◌then◌else◌, ℕ, suc, ◌≡◌, ◌≢◌, refl, true, false, Option, none, some, List, [], ◌∷◌,
  ◌++◌, map, arith, Bytes, codes, length, ok, Bool-cases, ◌==◌, inl, inr, Elem,
}
use rune_old.Maps.{find, upsert, nat_eq}
use rune_old.Paths.{join}
use rune_old.Resources.{FactoryFunc, SystemResources}
use rune_old.Resources.Growth.{entry}
use rune_old.Resources.Invariant.{Sound, Works}
use rune_old.Resources.Types.{
  material, type_code, not_loaded, loading, loaded, disk, ResourceId, ResourceMetadata,
}
use rune_old.Scenes.{Registry, SystemScene, SceneFile, load_scene}
use rune_old.Scenes.Load.{load_scene-Gets}
use rune_old.Scenes.Specs.{EntitySpec, entity_node, ids, Holds}
use rune_old.Scenes.Stored.{Components, no_components, Emplaces, Stores, Keeps}
use rune_old.Scenes.Gets.{Gets}

-- The registry counts the entities and stores their components.
abbrev Store : Type 0
Store = ℕ × (ℕ → Components ℕ)

abbrev is_valid : ℕ → Store → Bool
is_valid e (n, _) = ltb e n

abbrev components : ℕ → Store → Components ℕ
components e (_, f) = f e

abbrev change : (Components ℕ → Components ℕ) → ℕ → Store → Store
change set e (n, f) = (n, λ j. if e == j then set (f j) else f j)

abbrev registry : Registry Store ℕ
registry = record {
  no_entities = (0, λ j. no_components);
  create = λ r. (r.0, (suc r.0, λ j. if r.0 == j then no_components else r.1 j));
  destroy = λ e r. change (λ c. no_components) e r;
  emplace_transform = λ e t r. change (λ c. record c { transform = some t }) e r;
  emplace_static_renderer = λ e x r. change (λ c. record c { renderer = some x }) e r;
  emplace_camera = λ e w r. change (λ c. record c { camera = some w }) e r;
  emplace_script = λ e name r. change (λ c. record c { script = some name }) e r;
}

change-Emplaces :
    (set : Components ℕ → Components ℕ) (Lacks : Components ℕ → Type 0)
    → Emplaces is_valid components (change set) set Lacks
change-Emplaces set Lacks = record {
  here = λ e r _ _. (let same : (e == e) ≡ true = ground arith in rw same refl);
  valid = λ e j r _ _ v. v;
  others = λ e j r _ _ other. (let differs : (e == j) ≡ false = ground arith in rw differs refl);
}

registry-Stores : Stores is_valid components registry
registry-Stores = record {
  created_new = λ r. ground arith;
  created_valid = λ r. ground arith;
  created_empty = λ r. (let same : (r.0 == r.0) ≡ true = ground arith in rw same refl);
  still_valid = λ j r v. ground arith;
  still_same = λ j r v. (let differs : (r.0 == j) ≡ false = ground arith in rw differs refl);
  transforms =
      λ t. change-Emplaces (λ c. record c { transform = some t }) (λ c. c.transform ≡ none);
  renderers = λ x. change-Emplaces (λ c. record c { renderer = some x }) (λ c. c.renderer ≡ none);
  cameras = λ w. change-Emplaces (λ c. record c { camera = some w }) (λ c. c.camera ≡ none);
  scripts = λ n. change-Emplaces (λ c. record c { script = some n }) (λ c. c.script ≡ none);
}

abbrev meta : ResourceMetadata ℕ
meta = record {
  type = material;
  state = not_loaded;
  source = disk;
  source_filename = [];
  resource = none;
  dependencies = [];
}

abbrev factory : FactoryFunc ℕ
factory map m = ok (some 5)

abbrev table : SystemResources ℕ
table = record { factories = (2, some factory) ∷ []; metadata_map = (1, meta) ∷ (2, meta) ∷ [] }

each :
    (P : ResourceMetadata ℕ → Type 0)
    → P meta
    → (id : ResourceId) (m : ResourceMetadata ℕ) → entry id table ≡ some m
    → P m
unfolding find
each P p id m h = elim (Bool-cases (1 == id)) [
  | inl s ↦ let e : some meta ≡ some m = rw (s, find) at h in rw (← some-injective meta m e) p
  | inr s ↦ elim (Bool-cases (2 == id)) [
    | inl t ↦ let e : some meta ≡ some m = rw (s, t, find) at h in rw (← some-injective meta m e) p
    | inr t ↦ let e : none ≡ some m = rw (s, t, find) at h in cc
  ]
]

table-Works : Works 2 table
unfolding find
table-Works = (factory, refl, λ map m. (5, refl))

abbrev rank : ResourceId → ℕ
rank id = 0

table-Sound : Sound rank table
unfolding type_code
table-Sound = record {
  ranked = λ id m d h e. absurd (each (λ m. Elem d m.dependencies → ⊥) (λ e. elim e [ ]) id m h e);
  settled = each (λ m. m.state ≢ loading) (λ e. cc);
  closed = λ id m d h l. absurd (each (λ m. m.state ≢ loaded) (λ e. cc) id m h l);
  ready = each (λ m. Works (type_code m.type) table) table-Works;
}

abbrev specs : List (EntitySpec ℕ)
specs =
    record { transform = some 3; renderer = some (1, 2 ∷ []); camera = false; script = none }
    ∷ record { transform = none; renderer = none; camera = true; script = some (codes "Player") }
    ∷ []

abbrev yaml : Bytes → Option (SceneFile ℕ)
yaml path = some (record { entities = some (map entity_node specs) })

-- One entity is there already.
abbrev scene : SystemScene Store
scene = record { registry = (1, λ j. no_components); loaded_scene_map = [] }

load_scene-Gets_example :
    (scene' : SystemScene Store) × (s' : SystemResources ℕ) × (load_scene registry true 3 7 length
        yaml
        (codes "a.yaml")
        scene
        table
      ≡ ok (scene', s'))
    × Gets true rank 3 (ids specs) table s'
    × Keeps is_valid components scene.registry scene'.registry
    × ((es : List ℕ) × Holds is_valid components 7 scene.registry scene'.registry es specs
        × (scene'.loaded_scene_map
            ≡ upsert
                (length (join (codes "../../data") (codes "a.yaml")))
                []
                (λ old. old ++ es)
                scene.loaded_scene_map))
load_scene-Gets_example =
    load_scene-Gets true rank 3 registry is_valid components 7 length yaml (codes "a.yaml") specs
      scene table registry-Stores table-Sound
      (((meta, unfold find in refl), omega arith), (((meta, unfold find in refl), omega arith), tt))
      refl
