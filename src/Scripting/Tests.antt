-- ===== src/Scripting/Tests.antt =====
-- A class name, and an entity with a transform.
use rune_old.Base.{ℕ, ◌≡◌, refl, true, false, [], ◌∷◌, ◌++◌, Bool, codes}
use rune_old.Scripting.{Component, transform, camera, split_class}
use rune_old.Scripting.ClassNames.{split_class-cases}
use rune_old.Scripting.Glue.{
  Components, NeverNo, entity_has_component, entity_has_component-NeverNo,
}

split_class-cases_example :
    (split_class (codes "Sandbox" ++ b'.' ∷ codes "Mover") ≡ (codes "Sandbox", codes "Mover"))
    × (split_class (codes "Mover") ≡ (codes "Mover", codes "Mover"))
split_class-cases_example =
    split_class-cases (codes "Sandbox") (codes "Mover") (refl, (refl, (refl, (refl, (refl, tt)))))

-- Every entity has a transform and nothing else; there is one position.
abbrev has_transform : Component → ℕ → ℕ → Bool
has_transform transform e r = true
has_transform _ e r = false

abbrev components : Components ℕ ℕ
components = record { has = has_transform; position = λ e r. r; set_position = λ e p r. p }

entity_has_component-NeverNo_example :
    NeverNo (entity_has_component components true ((1, camera) ∷ []) 5 1 0)
entity_has_component-NeverNo_example =
    entity_has_component-NeverNo components true ((1, camera) ∷ []) 5 1 0
