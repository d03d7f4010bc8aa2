-- ===== src/Scenes/Specs.antt =====
-- The entities that the nodes of a scene file ask for, and a registry that holds them.
use rune_old.Base.{
  ℕ, ◌≡◌, Bool, Option, none, some, List, [], ◌∷◌, ◌++◌, map, if◌then◌else◌, Bytes, true, false,
  ◌∙◌, Elem, head, tail, Bool-cases, inl, inr,
}
use rune_old.Scenes.Stored.{Components, Built, Keeps}
use rune_old.Maps.{nat_eq}
use rune_old.Resources.Types.{ResourceId}
use rune_old.Scenes.{StaticRenderer, RendererNode, EntityNode}

-- An entity whose node can be read: its transform, the mesh and the materials of its renderer,
-- whether it has a camera, and its script.
pub record EntitySpec (T : Type 0) : Type 0 where
  pub transform : Option T
  pub renderer : Option (ResourceId × List ResourceId)
  pub camera : Bool
  pub script : Option Bytes

abbrev pub renderer_node : ResourceId × List ResourceId → RendererNode
renderer_node (mesh, materials) = record { mesh = some mesh; materials = map some materials }

abbrev pub map_option : {A B : Type 0} → (A → B) → Option A → Option B
map_option f none = none
map_option f (some a) = some (f a)

abbrev pub entity_node : {T : Type 0} → EntitySpec T → EntityNode T
entity_node e = record {
  transform = map_option some e.transform;
  static_renderer = map_option renderer_node e.renderer;
  camera = e.camera;
  script_class = map_option some e.script;
}

-- The resources that the entities refer to.
abbrev pub renderer_ids : Option (ResourceId × List ResourceId) → List ResourceId
renderer_ids none = []
renderer_ids (some (mesh, materials)) = mesh ∷ materials

abbrev pub ids : {T : Type 0} → List (EntitySpec T) → List ResourceId
ids [] = []
ids (e ∷ es) = renderer_ids e.renderer ++ ids es

-- What the nodes ask for.
abbrev pub renderer_of : ResourceId × List ResourceId → StaticRenderer
renderer_of (mesh, materials) = record { mesh = some mesh; materials = map some materials }

abbrev pub components_of : {T : Type 0} → ℕ → EntitySpec T → Components T
components_of window e = record {
  transform = e.transform;
  renderer = map_option renderer_of e.renderer;
  camera = if e.camera then some window else none;
  script = e.script;
}

module _ {Reg T : Type 0} (is_valid : ℕ → Reg → Bool) (components : ℕ → Reg → Components T)
    (window : ℕ) where
  -- Each entity is a new one, another one than those behind it, and has the components that its node
  -- asks for, and no other.
  abbrev pub Holds : Reg → Reg → List ℕ → List (EntitySpec T) → Type 0
  Holds before reg [] [] = Unit
  Holds before reg (e ∷ es) (spec ∷ specs) =
      (is_valid e before ≡ false)
      × (Elem e es → ⊥)
      × (is_valid e reg ≡ true)
      × (components e reg ≡ components_of window spec)
      × Holds before reg es specs
  Holds before reg _ _ = ⊥

  Holds-new :
      (before reg : Reg) (es : List ℕ) (specs : List (EntitySpec T)) (e : ℕ)
      → Holds before reg es specs
      → Elem e es
      → is_valid e before ≡ false
  Holds-new before reg (e ∷ es) (spec ∷ specs) _ h (head same) = rw same h.0
  Holds-new before reg (e ∷ es) (spec ∷ specs) x h (tail later) =
      Holds-new before reg es specs x h.4 later
  Holds-new before reg [] specs x h e = elim e [ ]
  Holds-new before reg (e ∷ es) [] x h _ = absurd h

  Holds-before :
      (before mid reg : Reg) (es : List ℕ) (specs : List (EntitySpec T))
      → ((j : ℕ) → is_valid j mid ≡ false → is_valid j before ≡ false)
      → Holds mid reg es specs
      → Holds before reg es specs
  Holds-before before mid reg [] [] back h = tt
  Holds-before before mid reg (e ∷ es) (spec ∷ specs) back (new, other, valid, has, rest) =
      (back e new, other, valid, has, Holds-before before mid reg es specs back rest)
  Holds-before before mid reg (e ∷ es) [] back h = h
  Holds-before before mid reg [] (spec ∷ specs) back h = h

  pub Holds-more :
      (before mid reg : Reg) (e : ℕ) (spec : EntitySpec T) (es : List ℕ)
      (specs : List (EntitySpec T))
      → Built is_valid components before e (components_of window spec) mid
      → Keeps is_valid components mid reg
      → Holds mid reg es specs
      → Holds before reg (e ∷ es) (spec ∷ specs)
  Holds-more before mid reg e spec es specs b keeps h = (
    b.new,
    λ later. cc (b.valid, Holds-new mid reg es specs e h later),
    (keeps e b.valid).0,
    (keeps e b.valid).1 ∙ b.has,
    Holds-before before mid reg es specs
        (λ j gone. elim (Bool-cases (is_valid j before)) [
          | inl there ↦ cc (gone, (b.keeps j there).0)
          | inr new ↦ new
        ])
        h,
  )
