-- ===== src/Resources/Tests.antt =====
-- Two resources, one of which depends on the other; a cycle of two; a handle.
use mathlib.Core.Option.{some-injective}
use rune_old.Base.{
  map, ℕ, ◌<◌, ◌≡◌, refl, ◌⊎◌, ◌≢◌, inl, inr, true, none, some, List, [], ◌∷◌, arith, ok, fault,
  out_of_fuel, Elem, head, tail, Bool-cases, ◌==◌, ==_iff, if◌then◌else◌,
}
use rune_old.Maps.{find, assign, upsert, nat_eq}
use rune_old.Resources.Types.{
  of_byte, material, type_code, not_loaded, loading, loaded, disk, app, ResourceId,
  ResourceMetadata,
}
use rune_old.Resources.Growth.{entry, Registered, IsLoaded, Extends}
use rune_old.Resources.Invariant.{Works, Sound}
use rune_old.Resources.Load.{Needs, load_ends}
use rune_old.Resources.Typed.{nothing_registered, get-HasClass}
use rune_old.Paths.{join, parent_path}
use rune_old.Resources.Cycle.{IsCycle, load_cycle}
use rune_old.Resources.Handles.{get_ptr, is_valid, is_loaded, is_loaded_state, get}
use rune_old.Resources.Handles.Stays.{
  registers_factory, registers_node, loads, adds, unloads, Reach, here, next, get_ptr_stays,
}
use rune_old.Resources.{
  FactoryFunc, SystemResources, RegistryNode, register_factory, register_node, load_self,
  get_factory, get_metadata, modify, add_resource, unload, load,
}

abbrev meta : List ResourceId → ResourceMetadata ℕ
meta deps = record {
  type = material;
  state = not_loaded;
  source = disk;
  source_filename = [];
  resource = none;
  dependencies = deps;
}

abbrev factory : FactoryFunc ℕ
factory map m = ok (some 5)

-- Resource 1 depends on resource 2.
abbrev pair : SystemResources ℕ
pair = record {
  factories = (2, some factory) ∷ [];
  metadata_map = (1, meta (2 ∷ [])) ∷ (2, meta []) ∷ [];
}

abbrev rank : ResourceId → ℕ
rank id = if id == 1 then 1 else 0

-- What holds of the two entries holds of all.
each :
    (P : ResourceId → ResourceMetadata ℕ → Type 0)
    → P 1 (meta (2 ∷ []))
    → P 2 (meta [])
    → (id : ResourceId) (m : ResourceMetadata ℕ) → entry id pair ≡ some m
    → P id m
unfolding find
each P p q id m h = elim (Bool-cases (1 == id)) [
  | inl s ↦
      let e : some (meta (2 ∷ [])) ≡ some m = rw (s, find) at h in
      rw (← (==_iff 1 id).0 s, ← some-injective (meta (2 ∷ [])) m e) p
  | inr s ↦ elim (Bool-cases (2 == id)) [
    | inl t ↦
        let e : some (meta []) ≡ some m = rw (s, t, find) at h in
        rw (← (==_iff 2 id).0 t, ← some-injective (meta []) m e) q
    | inr t ↦ let e : none ≡ some m = rw (s, t, find) at h in cc
  ]
]

pair-Works : Works 2 pair
unfolding find
pair-Works = (factory, refl, λ map m. (5, refl))

pair-Sound : Sound rank pair
unfolding type_code find
pair-Sound = record {
  ranked = λ id m d h.
      each (λ id m. Elem d m.dependencies → (rank d < rank id) × Registered d pair) (only d)
        (λ e. elim e [ ]) id m h;
  settled = λ id m h. each (λ _ m. m.state ≢ loading) (λ e. cc) (λ e. cc) id m h;
  closed = λ id m d h.
      each (λ _ m. m.state ≡ loaded → Elem d m.dependencies → IsLoaded d pair) (λ e. cc) (λ e. cc)
        id m h;
  ready = each (λ _ m. Works (type_code m.type) pair) pair-Works pair-Works;
}
  where
    only : (d : ResourceId) → Elem d (2 ∷ []) → (rank d < rank 1) × Registered d pair
    only d (head e) = rw e (omega arith, (meta [], refl))
    only d (tail e) = elim e [ ]

load_ends_example :
    (s : SystemResources ℕ) × (load true 3 1 pair ≡ ok s)
    × Sound rank s
    × Extends pair s
    × ((d : ResourceId) → Needs s 1 d → IsLoaded d s)
load_ends_example =
    load_ends true rank 3 1 pair pair-Sound (meta (2 ∷ []), unfold find in refl) (omega arith)

-- Resources 1 and 2 depend on one another.
abbrev ring : SystemResources ℕ
ring = record {
  factories = (2, some factory) ∷ [];
  metadata_map = (1, meta (2 ∷ [])) ∷ (2, meta (1 ∷ [])) ∷ [];
}

abbrev InRing : ResourceId → Type 0
InRing id = (id ≡ 1) ⊎ (id ≡ 2)

ring-IsCycle : IsCycle InRing ring
unfolding find
ring-IsCycle id (inl e) = rw e (meta (2 ∷ []), refl, refl, 2, [], refl, inr refl)
ring-IsCycle id (inr e) = rw e (meta (1 ∷ []), refl, refl, 1, [], refl, inl refl)

load_cycle_example : load true 1000 1 ring ≡ fault out_of_fuel
load_cycle_example = load_cycle true InRing ring 1000 1 ring-IsCycle (inl refl)

-- The table after two calls.
abbrev later : SystemResources ℕ
later = record {
  factories = (2, some factory) ∷ [];
  metadata_map =
      (1, record (meta (2 ∷ [])) { state = not_loaded; source = app; resource = none })
      ∷ (2, meta [])
      ∷ [];
}

pair-Reach : Reach true pair later
unfolding unload get_metadata modify upsert find add_resource
pair-Reach = next (next here (adds 1 9)) (unloads 1 refl)

get_ptr_stays_example :
    (is_valid (some 1) ≡ true)
    × (m : ResourceMetadata ℕ) × (entry 1 later ≡ some m)
    × (is_loaded (some 1) later ≡ ok (is_loaded_state m.state))
    × (get (some 1) later ≡ ok m.resource)
get_ptr_stays_example =
    get_ptr_stays true 1 pair later (some 1) (unfold get_ptr get_metadata find in refl) pair-Reach

-- A material is registered and loaded.
abbrev node : RegistryNode
node = record { id = some 4; type = some 2; source = some []; deps = some [] }

abbrev stock : SystemResources ℕ
stock = record {
  factories = (2, some factory) ∷ [];
  metadata_map =
      (
        4,
        record (meta []) {
          state = loaded;
          source_filename = join (parent_path []) [];
          resource = some 5;
        },
      )
      ∷ [];
}

stocked : Reach true nothing_registered stock
unfolding register_factory register_node load load_self get_factory get_metadata modify type_code
    of_byte find assign upsert
stocked =
    next (next (next here (registers_factory material factory)) (registers_node [] node refl))
      (loads 1 4 refl)

get-HasClass_example :
    (m : ResourceMetadata ℕ) × (entry 4 stock ≡ some m) × (type_code material ≡ type_code m.type)
unfolding stocked get_ptr is_loaded get get_metadata find type_code
get-HasClass_example =
    get-HasClass (λ _. material) 4 stock stocked (some 4) 5 (((tt, λ map m. refl), tt), tt) refl
      refl refl
