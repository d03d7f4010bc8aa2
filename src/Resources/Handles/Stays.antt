-- ===== src/Resources/Handles/Stays.antt =====
-- Handles never dangle: no operation on the table takes a resource out of it.
use rune_old.Base.{
  rune_assert, is_some, ℕ, zero, suc, Bool, true, false, ◌≡◌, refl, Option, none, some, List, [],
  ◌∷◌, Bytes, Outcome, ok, fault, ◌>>=◌, ◌>>◌, or_fault, for_each, arith, Bool-cases, inl, inr,
  ◌==◌, get_value_or, Option-cases,
}
use rune_old.Maps.{nat_eq}
use rune_old.Paths.{stem}
use rune_old.Resources.Types.{ResourceType, loading, loaded, ResourceId, ResourceMetadata, fresh}
use rune_old.Resources.Growth.{entry, Registered}
use rune_old.Resources.Invariant.{entry-modify}
use rune_old.Resources.{
  FactoryFunc, SystemResources, RegistryNode, get_metadata, modify, get_factory, register_factory,
  register_from_disk, add_resource, unload, load_self, load, register_node, is_not_loaded,
}
use rune_old.Resources.Handles.{ResourceHandle, get_ptr, is_valid, is_loaded_state, is_loaded, get}

module _ {Res : Type 0} where
  pub Registered-modify :
      (id j : ResourceId) (f : ResourceMetadata Res → ResourceMetadata Res)
      (s : SystemResources Res)
      → Registered j s
      → Registered j (modify id f s)
  Registered-modify id j f s (m, h) = elim (Bool-cases (id == j)) [
    | inl same ↦ (f (get_value_or (entry id s) fresh), rw (entry-modify id j f s, same))
    | inr other ↦ (m, rw (entry-modify id j f s, other) h)
  ]

  Registered-get_factory :
      (type : ResourceType) (j : ResourceId) (s : SystemResources Res)
      → Registered j s
      → Registered j (get_factory type s).1
  unfolding get_factory
  Registered-get_factory type j s h = h

  -- `f` keeps what is registered.
  abbrev Keeps : ResourceId → Outcome (SystemResources Res) → Type 0
  Keeps j (ok s) = Registered j s
  Keeps j (fault e) = Unit

  Keeps->>= :
      {A : Type 0} (j : ResourceId) (m : Outcome A) (f : A → Outcome (SystemResources Res))
      → ((a : A) → Keeps j (f a))
      → Keeps j (m >>= f)
  Keeps->>= j (ok a) f h = h a
  Keeps->>= j (fault e) f h = tt

  Keeps-then :
      (j : ResourceId) (r : Outcome (SystemResources Res))
      (f : SystemResources Res → Outcome (SystemResources Res))
      → Keeps j r
      → ((s : SystemResources Res) → Registered j s → Keeps j (f s))
      → Keeps j (r >>= f)
  Keeps-then j (ok s) f k h = h s k
  Keeps-then j (fault e) f k h = tt

  Keeps-load_self :
      (debug : Bool) (id j : ResourceId) (s : SystemResources Res)
      → Registered j s
      → Keeps j (load_self debug id s)
  unfolding load_self
  Keeps-load_self debug id j s h =
      Keeps->>= j (get_metadata id s) _ λ m. made m (get_factory m.type s).0
    where
      made :
          (m : ResourceMetadata Res) (found : Option (FactoryFunc Res))
          → Keeps j (elim found [
            | none ↦ ok (get_factory m.type s).1
            | some factory ↦ do
              let s' = modify id (λ m. record m { state = loading }) (get_factory m.type s).1
              m' ← get_metadata id s'
              r ← factory s'.metadata_map m'
              rune_assert debug (is_some r)
              ok (modify id (λ m. record m { resource = r; state = loaded }) s')
          ])
      made m none = Registered-get_factory m.type j s h
      made m (some factory) = Keeps->>= j _ _ λ m'. Keeps->>= j (factory _ m') _ λ r.
          Keeps->>= j (rune_assert debug (is_some r)) _ λ _.
            Registered-modify id j _ _
              (Registered-modify id j _ _ (Registered-get_factory m.type j s h))

  Keeps-for_each :
      {A : Type 0} (j : ResourceId) (f : A → SystemResources Res → Outcome (SystemResources Res))
      → ((a : A) (s : SystemResources Res) → Registered j s → Keeps j (f a s))
      → (xs : List A) (s : SystemResources Res) → Registered j s
      → Keeps j (for_each f xs s)
  Keeps-for_each j f keeps [] s h = h
  Keeps-for_each j f keeps (a ∷ xs) s h =
      Keeps-then j (f a s) (for_each f xs) (keeps a s h) (λ s' k. Keeps-for_each j f keeps xs s' k)

  Keeps-load :
      (debug : Bool) (fuel : ℕ) (id j : ResourceId) (s : SystemResources Res)
      → Registered j s
      → Keeps j (load debug fuel id s)
  unfolding load
  Keeps-load debug zero id j s h = tt
  Keeps-load debug (suc fuel) id j s h =
      let all : (ds : List ResourceId) → Keeps j (for_each (load debug fuel) ds s) =
        λ ds. Keeps-for_each j (load debug fuel) (λ d s'. Keeps-load debug fuel d j s') ds s h in
      Keeps->>= j (get_metadata id s) _ λ m. branch m (is_not_loaded m.state) all
    where
      branch :
          (m : ResourceMetadata Res) (new : Bool)
          → ((ds : List ResourceId) → Keeps j (for_each (load debug fuel) ds s))
          → Keeps j (elim new [
            | false ↦ ok s
            | true ↦ for_each (load debug fuel) m.dependencies s >>= load_self debug id
          ])
      branch m false all = h
      branch m true all =
          Keeps-then j (for_each (load debug fuel) m.dependencies s) (load_self debug id)
            (all m.dependencies) (λ s' k. Keeps-load_self debug id j s' k)

  Keeps-unload :
      (id j : ResourceId) (s : SystemResources Res) → Registered j s → Keeps j (unload id s)
  unfolding unload
  Keeps-unload id j s h = Keeps->>= j (get_metadata id s) _ λ _. Registered-modify id j _ s h

  Keeps-register_node :
      (debug : Bool) (filename : Bytes) (n : RegistryNode) (j : ResourceId)
      (s : SystemResources Res)
      → Registered j s
      → Keeps j (register_node debug filename n s)
  unfolding register_node
  Keeps-register_node debug filename n j s h = Keeps->>= j (rune_assert debug (is_some n.id)) _ λ _.
      Keeps->>= j (or_fault n.id _) _ λ id.
        Keeps->>= j (or_fault n.type _) _
          λ _. Keeps->>= j (or_fault n.source _) _ λ _. Registered-modify id j _ s h

  -- One call of an operation, when it returns.
  pub data Step (debug : Bool) : SystemResources Res → SystemResources Res → Type 0 where
    registers_factory :
        {s : SystemResources Res} (type : ResourceType) (f : FactoryFunc Res)
        → Step debug s (register_factory type f s)
    registers_from_disk :
        {s : SystemResources Res} (strid : Bytes → ℕ) (filename : Bytes)
        → Step debug s (register_from_disk strid filename s)
    adds :
        {s : SystemResources Res} (id : ResourceId) (r : Res) → Step debug s (add_resource id r s)
    unloads : {s s' : SystemResources Res} (id : ResourceId) → unload id s ≡ ok s' → Step debug s s'
    loads :
        {s s' : SystemResources Res} (fuel : ℕ) (id : ResourceId)
        → load debug fuel id s ≡ ok s'
        → Step debug s s'
    registers_node :
        {s s' : SystemResources Res} (filename : Bytes) (n : RegistryNode)
        → register_node debug filename n s ≡ ok s'
        → Step debug s s'

  pub data Reach (debug : Bool) (s : SystemResources Res) : SystemResources Res → Type 0 where
    here : Reach debug s s
    next : {t u : SystemResources Res} → Reach debug s t → Step debug t u → Reach debug s u

  Registered-Step :
      (debug : Bool) (j : ResourceId) {s s' : SystemResources Res}
      → Step debug s s'
      → Registered j s
      → Registered j s'
  unfolding register_factory register_from_disk add_resource
  Registered-Step debug j (registers_factory type f) h = h
  Registered-Step debug j (registers_from_disk {s = t} strid filename) h =
      Registered-modify (strid (stem filename)) j _ t h
  Registered-Step debug j (adds {s = t} id r) h = Registered-modify id j _ t h
  Registered-Step debug j (unloads {s = t} id e) h = rw e at (Keeps-unload id j t h)
  Registered-Step debug j (loads {s = t} fuel id e) h = rw e at (Keeps-load debug fuel id j t h)
  Registered-Step debug j (registers_node {s = t} filename n e) h =
      rw e at (Keeps-register_node debug filename n j t h)

  Registered-Reach :
      (debug : Bool) (j : ResourceId) {s t : SystemResources Res}
      → Reach debug s t
      → Registered j s
      → Registered j t
  Registered-Reach debug j here h = h
  Registered-Reach debug j (next r st) h = Registered-Step debug j st (Registered-Reach debug j r h)

  pub get_ptr-eq-ok :
      (id : ResourceId) (s : SystemResources Res) (h : ResourceHandle)
      → get_ptr id s ≡ ok h
      → Registered id s × (h ≡ some id)
  unfolding get_ptr get_metadata
  get_ptr-eq-ok id s h e = elim (Option-cases (entry id s)) [
    | inl missing ↦ ground arith
    | inr (m, found) ↦ ((m, found), ground arith)
  ]

  -- A handle that `get_ptr` returned never dangles: after any calls that return, of
  -- register_factory, register_from_disk, add_resource, unload, load and the registration of a node
  -- of the registry file, it is valid, and both questions that go through its pointer are answered
  -- from the resource's entry.
  pub get_ptr_stays :
      (debug : Bool) (id : ResourceId) (s t : SystemResources Res) (h : ResourceHandle)
      → get_ptr id s ≡ ok h
      → Reach debug s t
      → (is_valid h ≡ true)
        × (m : ResourceMetadata Res) × (entry id t ≡ some m)
        × (is_loaded h t ≡ ok (is_loaded_state m.state))
        × (get h t ≡ ok m.resource)
  unfolding is_valid is_loaded get
  get_ptr_stays debug id s t h e r =
      let (registered, same) = get_ptr-eq-ok id s h e in
      let (m, found) = Registered-Reach debug id r registered in
      rw same (refl, m, found, ground arith, ground arith)
