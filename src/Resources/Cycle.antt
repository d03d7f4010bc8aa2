-- ===== src/Resources/Cycle.antt =====
-- `SystemResources::load` marks a resource only behind the loop over its dependencies, so nothing
-- stops it on a cycle of them.
use rune_old.Base.{ℕ, zero, suc, Bool, ◌≡◌, refl, some, List, ◌∷◌, fault, out_of_fuel, ◌>>=◌}
use rune_old.Resources.Types.{not_loaded, ResourceId, ResourceMetadata}
use rune_old.Resources.Growth.{entry}
use rune_old.Resources.Invariant.{get_metadata-eq-ok}
use rune_old.Resources.{SystemResources, load}

-- Every resource of `C` is registered, not loaded, and has one of `C` as its first dependency.
abbrev pub IsCycle : {Res : Type 0} → (ResourceId → Type 0) → SystemResources Res → Type 0
IsCycle {Res} C s =
    (id : ResourceId)
    → C id
    → (m : ResourceMetadata Res) × (entry id s ≡ some m)
      × (m.state ≡ not_loaded)
      × (d : ResourceId) × (rest : List ResourceId) × (m.dependencies ≡ d ∷ rest)
      × C d

-- On registered resources that are not loaded and each have another one of them, or itself, as the
-- first dependency, so that the first dependencies run in a cycle, `load` does not return: it runs out of any fuel.
pub load_cycle :
    {Res : Type 0} (debug : Bool) (C : ResourceId → Type 0) (s : SystemResources Res) (fuel : ℕ)
    (id : ResourceId)
    → IsCycle C s
    → C id
    → load debug fuel id s ≡ fault out_of_fuel
unfolding load
load_cycle debug C s zero id cycle c = refl
load_cycle debug C s (suc fuel) id cycle c =
    let (m, found, new, d, rest, deps, c') = cycle id c in
    rw (get_metadata-eq-ok id s m found, ◌>>=◌, new, deps, load_cycle debug C s fuel d cycle c')
