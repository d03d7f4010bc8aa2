-- ===== src/Resources/Load.antt =====
-- `SystemResources::load` on resources whose dependencies do not come back to them.
use mathlib.Core.Option.{some-injective}
use rune_old.Base.{
  sym, ap, ◌∙◌, ℕ, zero, suc, ◌<◌, Bool, ◌≡◌, refl, ◌⊎◌, inl, inr, some, List, [], ◌∷◌, Outcome, ok,
  ◌>>=◌, for_each, arith, Elem, head, tail,
}
use rune_old.Resources.Types.{
  ResourceState, not_loaded, loading, loaded, ResourceId, ResourceMetadata,
}
use rune_old.Resources.Growth.{
  entry, Registered, IsLoaded, Extends, Grown-refl, Extends-trans, Extends-on, IsLoaded-Extends,
}
use rune_old.Resources.Invariant.{
  Sound, get_metadata-eq-ok, load_self-stored, stored, stored-Extends, stored-IsLoaded,
  stored-Sound,
}
use rune_old.Resources.{SystemResources, load}

State-cases : (s : ResourceState) → (s ≡ not_loaded) ⊎ ((s ≡ loading) ⊎ (s ≡ loaded))
State-cases not_loaded = inl refl
State-cases loading = inr (inl refl)
State-cases loaded = inr (inr refl)

module _ {Res : Type 0} (rank : ResourceId → ℕ) where
  -- The call returns a state that is sound, in which nothing has changed but that resources have
  -- been loaded, and all of `ids` are.
  abbrev LoadsAll : List ResourceId → SystemResources Res → Outcome (SystemResources Res) → Type 0
  LoadsAll ids s result =
      (s' : SystemResources Res) × (result ≡ ok s')
      × Sound rank s'
      × Extends s s'
      × ((d : ResourceId) → Elem d ids → IsLoaded d s')

module _ (Res : Type 0) (debug : Bool) (rank : ResourceId → ℕ) where
  -- What `load` does with that much fuel.
  abbrev Loads : ℕ → Type 0
  Loads fuel =
      (id : ResourceId) (s : SystemResources Res)
      → Sound rank s
      → Registered id s
      → rank id < fuel
      → LoadsAll rank (id ∷ []) s (load debug fuel id s)

  for_each-load :
      (fuel : ℕ) (ids : List ResourceId) (s : SystemResources Res)
      → Loads fuel
      → Sound rank s
      → ((d : ResourceId) → Elem d ids → (rank d < fuel) × Registered d s)
      → LoadsAll rank ids s (for_each (load debug fuel) ids s)
  for_each-load fuel [] s loads sound h =
      (s, refl, sound, λ j. Grown-refl (entry j s), λ d e. elim e [ ])
  for_each-load fuel (id ∷ ids) s loads sound h =
      let (lower, registered) = h id (head refl) in
      let (s1, run1, sound1, ext1, all1) = loads id s sound registered lower in
      let (s2, run2, sound2, ext2, all2) = for_each-load fuel ids s1 loads sound1 (rest s1 ext1) in
      (
        s2,
        rw (run1, ◌>>=◌) run2,
        sound2,
        Extends-trans s s1 s2 ext1 ext2,
        members s1 s2 ext2 all1 all2,
      )
    where
      rest :
          (s1 : SystemResources Res)
          → Extends s s1
          → (d : ResourceId) → Elem d ids
          → (rank d < fuel) × Registered d s1
      rest s1 ext1 d e =
          let (lower, registered) = h d (tail e) in
          let (m, found, _) = Extends-on s s1 d registered.0 ext1 registered.1 in
          (lower, (m, found))

      members :
          (s1 s2 : SystemResources Res)
          → Extends s1 s2
          → ((d : ResourceId) → Elem d (id ∷ []) → IsLoaded d s1)
          → ((d : ResourceId) → Elem d ids → IsLoaded d s2)
          → (d : ResourceId) → Elem d (id ∷ ids)
          → IsLoaded d s2
      members s1 s2 ext2 all1 all2 d (head e) = IsLoaded-Extends s1 s2 d ext2 (all1 d (head e))
      members s1 s2 ext2 all1 all2 d (tail e) = all2 d e

  load-Loads : (fuel : ℕ) → Loads fuel
  unfolding load
  load-Loads zero id s sound (m, found) h = elim h [ ]
  load-Loads (suc fuel) id s sound (m, found) h = elim (State-cases m.state) [
    | inl new ↦
        let (s1, run1, sound1, ext1, all1) =
          for_each-load fuel m.dependencies s (load-Loads fuel) sound below in
        new_case new s1 run1 sound1 ext1 all1
    | inr (inl under_way) ↦ absurd (sound.settled id m found under_way)
    | inr (inr old) ↦ (
      s,
      rw (get_metadata-eq-ok id s m found, ◌>>=◌, old),
      sound,
      (λ j. Grown-refl (entry j s)),
      only s (m, found, old),
    )
  ]
    where
      only :
          (s' : SystemResources Res)
          → IsLoaded id s'
          → (d : ResourceId) → Elem d (id ∷ [])
          → IsLoaded d s'
      only s' l d (head e) = rw e l
      only s' l d (tail e) = elim e [ ]

      new_case :
          m.state ≡ not_loaded
          → (s1 : SystemResources Res) → for_each (load debug fuel) m.dependencies s ≡ ok s1
          → Sound rank s1
          → Extends s s1
          → ((d : ResourceId) → Elem d m.dependencies → IsLoaded d s1)
          → LoadsAll rank (id ∷ []) s (load debug (suc fuel) id s)
      new_case new s1 run1 sound1 ext1 all1 =
          let (m1, found1, grows) = Extends-on s s1 id m ext1 found in
          let (r, run2) = load_self-stored debug id s1 m1 found1 (sound1.ready id m1 found1) in
          let s2 = stored id r s1 m1.type in
          let ext2 = stored-Extends rank s1 sound1 id m1 found1 r in
          (
            s2,
            rw (get_metadata-eq-ok id s m found, ◌>>=◌, new, run1) run2,
            stored-Sound rank s1 sound1 id m1 found1 r
                (λ d e. all1 d (rw grows.dependencies_kept at e)),
            Extends-trans s s1 s2 ext1 ext2,
            only s2 (stored-IsLoaded rank s1 sound1 id m1 found1 r),
          )

      below : (d : ResourceId) → Elem d m.dependencies → (rank d < fuel) × Registered d s
      below d e = let (lower, registered) = sound.ranked id m d found e in (omega arith, registered)

-- `d` is `id`, or a dependency of what `id` needs.
pub data Needs {Res : Type 0} (s : SystemResources Res) : ResourceId → ResourceId → Type 0 where
  itself : {id : ResourceId} → Needs s id id
  through :
      {id d e : ResourceId} {m : ResourceMetadata Res}
      → entry id s ≡ some m
      → Elem d m.dependencies
      → Needs s d e
      → Needs s id e

IsLoaded-Needs :
    {Res : Type 0} (rank : ResourceId → ℕ) (s : SystemResources Res) {id d : ResourceId}
    → Needs s id d
    → Sound rank s
    → IsLoaded id s
    → IsLoaded d s
IsLoaded-Needs rank s itself sound l = l
IsLoaded-Needs rank s (through {m = m'} found e n) sound l =
    let same : m' ≡ l.0 = some-injective m' l.0 (sym found ∙ l.1) in
    let state : m'.state ≡ loaded = ap (λ (x : ResourceMetadata _). x.state) same ∙ l.2 in
    IsLoaded-Needs rank s n sound (sound.closed _ m' _ found state e)

-- In a sound state (dependencies are registered and have lower ranks, no load is under way, what is
-- loaded has its dependencies loaded, and every type has a factory that works) `load` of a registered
-- resource returns, with any fuel above its rank: the resource and all that it needs, directly or
-- not, are loaded then, nothing that was loaded before is lost, no entry changes its type or its
-- dependencies, and the state is sound again.
pub load_ends :
    {Res : Type 0} (debug : Bool) (rank : ResourceId → ℕ) (fuel : ℕ) (id : ResourceId)
    (s : SystemResources Res)
    → Sound rank s
    → Registered id s
    → rank id < fuel
    → (s' : SystemResources Res) × (load debug fuel id s ≡ ok s')
      × Sound rank s'
      × Extends s s'
      × ((d : ResourceId) → Needs s' id d → IsLoaded d s')
load_ends debug rank fuel id s sound registered h =
    let (s', run, sound', ext, all) = load-Loads _ debug rank fuel id s sound registered h in
    (s', run, sound', ext, λ d n. IsLoaded-Needs rank s' n sound' (all id (head refl)))
