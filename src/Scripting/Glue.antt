-- ===== src/Scripting/Glue.antt =====
-- Rune/src/scripting/script_glue.cpp: the functions that scripts call on entities. The entity registry is
-- a parameter: asking it for a component that the entity does not have is undefined.
use rune_old.Base.{
  ℕ, Bool, true, ◌≡◌, refl, Option, some, is_some, if◌then◌else◌, Outcome, Fault, assertion_failed,
  Bool-cases, Option-cases, inl, inr, ok, fault, ◌>>=◌, ◌>>◌, or_fault, rune_assert, null_access,
  missing_key,
}
use rune_old.Maps.{find, nat_eq}
use rune_old.Engine.{Engine}
use rune_old.Platform.{Glfw, Platform, get_time}
use rune_old.Scenes.{Registry, SystemScene, create_entity, destroy_entity}
use rune_old.Scripting.{Component, transform, ComponentTypes}

pub record Components (Reg P : Type 0) : Type 0 where
  pub has : Component → ℕ → Reg → Bool
  pub position : ℕ → Reg → P
  pub set_position : ℕ → P → Reg → Reg

module _ {Reg P : Type 0} (g : Components Reg P) where
  -- `get_component`: a pointer into the registry, here to the entity's component.
  unfoldable pub get_component : Component → ℕ → Reg → Outcome (Option ℕ)
  get_component c entity reg = if g.has c entity reg then ok (some entity) else fault null_access

  unfoldable pub entity_has_component : Bool → ComponentTypes → ℕ → ℕ → Reg → Outcome Bool
  entity_has_component debug types entity managed_type reg = do
    rune_assert debug (is_some (find managed_type types))
    c ← or_fault (find managed_type types) missing_key
    pointer ← get_component c entity reg
    ok (is_some pointer)

  unfoldable pub transform_get_position : ℕ → Reg → Outcome P
  transform_get_position entity reg = do
    pointer ← get_component transform entity reg
    e ← or_fault pointer null_access
    ok (g.position e reg)

  unfoldable pub transform_set_position : ℕ → P → Reg → Outcome Reg
  transform_set_position entity p reg = do
    pointer ← get_component transform entity reg
    e ← or_fault pointer null_access
    ok (g.set_position e p reg)

  get_component-has :
      (c : Component) (entity : ℕ) (reg : Reg)
      → g.has c entity reg ≡ true
      → get_component c entity reg ≡ ok (some entity)
  unfolding get_component
  get_component-has c entity reg h = rw (h) refl

-- The answer is yes, or there is none.
pub data NeverNo : Outcome Bool → Type 0 where
  says_yes : NeverNo (ok true)
  stops : (e : Fault) → NeverNo (fault e)

get_component-NeverNo :
    {Reg P : Type 0} (g : Components Reg P) (c : Component) (entity : ℕ) (reg : Reg)
    → NeverNo (get_component g c entity reg >>= λ pointer. ok (is_some pointer))
unfolding get_component
get_component-NeverNo g c entity reg = elim (Bool-cases (g.has c entity reg)) [
  | inl h ↦ rw (get_component, h) says_yes
  | inr h ↦ rw (get_component, h) (stops null_access)
]

-- `Entity_HasComponent` never answers no: whatever the registry holds and whatever types are
-- registered, it answers yes or does not return an answer, since the pointer that it tests refers to
-- a component that the registry was asked for.
pub entity_has_component-NeverNo :
    {Reg P : Type 0} (g : Components Reg P) (debug : Bool) (types : ComponentTypes)
    (entity managed_type : ℕ) (reg : Reg)
    → NeverNo (entity_has_component g debug types entity managed_type reg)
unfolding entity_has_component
entity_has_component-NeverNo g debug types entity managed_type reg =
    elim (Option-cases (find managed_type types)) [
      | inl e ↦ elim (Bool-cases debug) [
        | inl d ↦ rw (entity_has_component, e, d) (stops assertion_failed)
        | inr d ↦ rw (entity_has_component, e, d) (stops missing_key)
      ]
      | inr (c, e) ↦ elim (Bool-cases debug) [
        | inl d ↦ rw (entity_has_component, e, d) (get_component-NeverNo g c entity reg)
        | inr d ↦ rw (entity_has_component, e, d) (get_component-NeverNo g c entity reg)
      ]
    ]

-- A position that a script sets is the one that it gets, for an entity with a transform and a registry
-- that keeps the transform and what is written to it.
pub transform_get_position-transform_set_position :
    {Reg P : Type 0} (g : Components Reg P) (entity : ℕ) (p : P) (reg : Reg)
    → g.has transform entity reg ≡ true
    → ((e : ℕ) (q : P) (r : Reg)
        → g.has transform e r ≡ true
        → (g.has transform e (g.set_position e q r) ≡ true)
          × (g.position e (g.set_position e q r) ≡ q))
    → (transform_set_position g entity p reg >>= transform_get_position g entity) ≡ ok p
unfolding transform_get_position transform_set_position
transform_get_position-transform_set_position g entity p reg h keeps =
    let (kept, there) = keeps entity p reg h in
    rw
      (
        transform_set_position,
        get_component-has g transform entity reg h,
        transform_get_position,
        get_component-has g transform entity (g.set_position entity p reg) kept,
        there,
      )
      refl

-- The calls on time and on entities: what they ask of the engine, of the platform and of the scene.
abbrev pub time_get_delta : {D : Type 0} → Engine D → D
time_get_delta e = e.delta_time

abbrev pub time_get_since_startup : {F : Type 0} → Glfw F → Platform → F
time_get_since_startup = get_time

abbrev pub entity_create : {Reg T : Type 0} → Registry Reg T → SystemScene Reg → ℕ × SystemScene Reg
entity_create = create_entity

-- The entity is behind a pointer.
unfoldable pub entity_destroy :
    {Reg T : Type 0} → Registry Reg T → Option ℕ → SystemScene Reg → Outcome (SystemScene Reg)
entity_destroy g pointer s = do
  entity ← or_fault pointer null_access
  ok (destroy_entity g entity s)

-- `Native_Vector_Cross`, with the cross product and the negation of a component as parameters: what it
-- writes as its result.
unfoldable pub native_vector_cross :
    {F : Type 0} → (F × F × F → F × F × F → F × F × F) → (F → F) → F × F × F → F × F × F
native_vector_cross cross negate (x, y, z) = cross (x, y, z) (x, y, negate z)
