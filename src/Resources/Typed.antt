-- ===== src/Resources/Typed.antt =====
-- The class of a loaded resource is that of its metadata's type, to which a handle is cast.
mod Kept
pub use Kept.{HasClass, Makes, Typed}
use mathlib.Core.Option.{some-injective}
use rune_old.Base.{
  ◌≢◌, rune_assert, is_some, ℕ, zero, suc, Bool, true, false, ◌≡◌, refl, sym, ap, ◌∙◌, Option, none,
  some, List, [], ◌∷◌, Bytes, Outcome, ok, fault, ◌>>=◌, ◌>>◌, or_fault, for_each, arith,
  Bool-cases, inl, inr, ◌==◌, ==_iff, if◌then◌else◌, get_value_or, Option-cases, Ensures,
  Ensures-bind, Ensures-always, Ensures-ok, for_each-Ensures,
}
use rune_old.Maps.{find, upsert, assign, nat_eq}
use rune_old.Maps.Laws.{find-upsert, find-assign}
use rune_old.Paths.{stem}
use rune_old.Resources.Types.{
  ResourceType, ResourceState, type_code, not_loaded, loading, loaded, ResourceId, ResourceMetadata,
  fresh,
}
use rune_old.Resources.Growth.{entry}
use rune_old.Resources.Invariant.{entry-modify, get_metadata-eq-ok, entry_loading}
use rune_old.Resources.{
  MetadataMap, FactoryFunc, SystemResources, RegistryNode, get_metadata, modify, get_factory,
  register_factory, register_from_disk, add_resource, unload, load_self, load, register_node,
  is_not_loaded,
}
use rune_old.Resources.Handles.{ResourceHandle, get_ptr, is_loaded, is_loaded_state, get}
use rune_old.Resources.Handles.Stays.{
  Step, registers_factory, registers_from_disk, adds, unloads, loads, registers_node, Reach, here,
  next, get_ptr-eq-ok,
}
use rune_old.Resources.Typed.Kept.{
  HasClass, Makes, Typed, Typed-modify, Typed-load, Typed-unload, Typed-register_node,
  Typed-register_factory,
}

abbrev or_false : Outcome Bool → Bool
or_false (ok b) = b
or_false (fault e) = false

abbrev or_none : {A : Type 0} → Outcome (Option A) → Option A
or_none (ok o) = o
or_none (fault e) = none

loaded_of : (st : ResourceState) → is_loaded_state st ≡ true → st ≡ loaded
loaded_of not_loaded h = cc
loaded_of loading h = cc
loaded_of loaded h = refl

-- A table with nothing in it.
abbrev pub nothing_registered : {Res : Type 0} → SystemResources Res
nothing_registered = record { factories = []; metadata_map = [] }

module _ {Res : Type 0} (class_of : Res → ResourceType) (id : ResourceId) where
  abbrev Watched : ResourceId → Type 0
  Watched j = j ≡ id

  -- What a call has to do with the class of one resource: a factory that is registered makes
  -- resources of its type, and what the program adds by itself is another resource.
  abbrev pub IsTypedStep : {debug : Bool} {s s' : SystemResources Res} → Step debug s s' → Type 0
  IsTypedStep (registers_factory type f) = Makes class_of Watched (type_code type) (some f)
  IsTypedStep (adds added r) = added ≢ id
  IsTypedStep (registers_from_disk strid filename) = Unit
  IsTypedStep (unloads j e) = Unit
  IsTypedStep (loads fuel j e) = Unit
  IsTypedStep (registers_node filename n e) = Unit

  abbrev pub IsTypedReach : {debug : Bool} {s t : SystemResources Res} → Reach debug s t → Type 0
  IsTypedReach here = Unit
  IsTypedReach (next r st) = IsTypedReach r × IsTypedStep st

  Typed-Step :
      {debug : Bool} {s s' : SystemResources Res} (st : Step debug s s')
      → IsTypedStep st
      → Typed class_of Watched s
      → Typed class_of Watched s'
  unfolding register_from_disk add_resource
  Typed-Step (registers_factory {s = u} type f) makes t =
      Typed-register_factory class_of Watched type f u makes t
  Typed-Step (registers_from_disk {s = u} strid filename) _ t =
      Typed-modify class_of Watched (strid (stem filename)) _ u t (λ _ e. cc)
  Typed-Step (adds {s = u} added r) other t =
      Typed-modify class_of Watched added _ u t (λ w. absurd (other w))
  Typed-Step (unloads {s = u} j e) _ t =
      Ensures-ok (Typed class_of Watched) (Typed-unload class_of Watched j u t) e
  Typed-Step {debug} (loads {s = u} fuel j e) _ t =
      Ensures-ok (Typed class_of Watched) (Typed-load class_of Watched debug fuel j u t) e
  Typed-Step {debug} (registers_node {s = u} filename n e) _ t =
      Ensures-ok (Typed class_of Watched)
        (Typed-register_node class_of Watched debug filename n u t) e

  Typed-Reach :
      {debug : Bool} {s t : SystemResources Res} (r : Reach debug s t)
      → IsTypedReach r
      → Typed class_of Watched s
      → Typed class_of Watched t
  Typed-Reach here _ h = h
  Typed-Reach (next r st) (typed, step) h = Typed-Step st step (Typed-Reach r typed h)

  nothing_registered-Typed : Typed class_of Watched nothing_registered
  unfolding find
  nothing_registered-Typed = record {
    factories_typed = λ code f h. cc;
    entries_typed = λ j m w h. cc;
  }

  -- The cast of a handle is right, for a resource that is not one that the program adds by itself:
  -- from an empty table, after any calls that return, in any order, of register_factory,
  -- register_from_disk, unload, load and the registration of a node, and of add_resource for other
  -- resources, where each factory makes resources of the type that it is registered for, the resource
  -- that a handle points to has the class of its entry's type, if the handle says that it is loaded.
  pub get-HasClass :
      {debug : Bool} (t : SystemResources Res) (r : Reach debug nothing_registered t)
      (h : ResourceHandle) (x : Res)
      → IsTypedReach r
      → get_ptr id t ≡ ok h
      → is_loaded h t ≡ ok true
      → get h t ≡ ok (some x)
      → (m : ResourceMetadata Res) × (entry id t ≡ some m)
        × (type_code (class_of x) ≡ type_code m.type)
  unfolding is_loaded get
  get-HasClass t r h x typed ptr is there =
      let ((m, found), same) = get_ptr-eq-ok id t h ptr in
      let ended = Typed-Reach r typed nothing_registered-Typed in
      let is' : is_loaded (some id) t ≡ ok true = rw same at is in
      let there' : get (some id) t ≡ ok (some x) = rw same at there in
      let state : ok (is_loaded_state m.state) ≡ ok true = rw (is_loaded, found) at is' in
      let holds : ok m.resource ≡ ok (some x) = rw (get, found) at there' in
      let class = ended.entries_typed id m refl found (loaded_of m.state (ap or_false state)) in
      (m, found, rw (ap or_none holds) at class)
