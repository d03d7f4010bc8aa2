-- ===== src/Scenes/Gets.antt =====
-- What the loading of handles makes of the table of resources.
use rune_old.Base.{
  ℕ, ◌<◌, ◌≡◌, ap, ◌∙◌, Bool, some, List, [], ◌∷◌, ◌++◌, append-nil, append_assoc, map, All, ok,
}
use rune_old.Maps.{nat_eq}
use rune_old.Resources.{SystemResources}
use rune_old.Resources.Growth.{
  entry, Registered, IsLoaded, Extends, Grown-refl, Extends-trans, Extends-on, IsLoaded-Extends,
}
use rune_old.Resources.Handles.{ResourceHandle, get_ptr}
use rune_old.Resources.Invariant.{Sound, get_metadata-eq-ok}
use rune_old.Resources.Load.{itself, load_ends}
use rune_old.Resources.Types.{ResourceId}
use rune_old.Scenes.{load_handle, load_materials}

All-join :
    (P : ResourceId → Type 0) (xs ys : List ResourceId) → All P xs → All P ys → All P (xs ++ ys)
All-join P [] ys h k = k
All-join P (x ∷ xs) ys h k = (h.0, All-join P xs ys h.1 k)

pub All-halves :
    (P : ResourceId → Type 0) (xs ys : List ResourceId) → All P (xs ++ ys) → All P xs × All P ys
All-halves P [] ys h = (tt, h)
All-halves P (x ∷ xs) ys h = let (a, b) = All-halves P xs ys h.1 in ((h.0, a), b)

module _ {Res : Type 0} (debug : Bool) (rank : ResourceId → ℕ) (fuel : ℕ) where
  abbrev pub Loadable : SystemResources Res → ResourceId → Type 0
  Loadable s id = Registered id s × (rank id < fuel)

  -- What the loading of some resources makes of the table.
  pub record Gets (is : List ResourceId) (s s' : SystemResources Res) : Type 0 where
    pub sound : Sound rank s'
    pub extends : Extends s s'
    pub all_loaded : All (λ id. IsLoaded id s') is

  pub Gets-none : (s : SystemResources Res) → Sound rank s → Gets [] s s
  Gets-none s sound = record {
    sound = sound;
    extends = λ id. Grown-refl (entry id s);
    all_loaded = tt;
  }

  All-kept :
      (s s' : SystemResources Res) (is : List ResourceId)
      → Extends s s'
      → All (λ id. IsLoaded id s) is
      → All (λ id. IsLoaded id s') is
  All-kept s s' [] ext h = tt
  All-kept s s' (i ∷ is) ext h = (IsLoaded-Extends s s' i ext h.0, All-kept s s' is ext h.1)

  pub Gets-append :
      (is js : List ResourceId) (s t u : SystemResources Res)
      → Gets is s t
      → Gets js t u
      → Gets (is ++ js) s u
  Gets-append is js s t u g h = record {
    sound = h.sound;
    extends = Extends-trans s t u g.extends h.extends;
    all_loaded = All-join _ is js (All-kept t u is h.extends g.all_loaded) h.all_loaded;
  }

  pub Loadable-kept :
      (s s' : SystemResources Res) (is : List ResourceId)
      → Extends s s'
      → All (Loadable s) is
      → All (Loadable s') is
  Loadable-kept s s' [] ext h = tt
  Loadable-kept s s' (i ∷ is) ext ((r, below), rest) =
      let (m', found', _) = Extends-on s s' i r.0 ext r.1 in
      (((m', found'), below), Loadable-kept s s' is ext rest)

  pub load_handle-Gets :
      (id : ResourceId) (s : SystemResources Res)
      → Sound rank s
      → Loadable s id
      → (s' : SystemResources Res) × (load_handle debug fuel id s ≡ ok (some id, s'))
        × Gets (id ∷ []) s s'
  unfolding load_handle get_ptr
  load_handle-Gets id s sound (registered, below) =
      let (s', run, sound', ext, all) = load_ends debug rank fuel id s sound registered below in
      (
        s',
        rw (get_metadata-eq-ok id s registered.0 registered.1, run),
        record { sound = sound'; extends = ext; all_loaded = (all id itself, tt) },
      )

  pub load_materials-Gets :
      (is : List ResourceId) (hs : List ResourceHandle) (s : SystemResources Res)
      → Sound rank s
      → All (Loadable s) is
      → (s' : SystemResources Res) × (load_materials debug fuel (map some is) hs s
          ≡ ok (hs ++ map some is, s'))
        × Gets is s s'
  unfolding load_materials
  load_materials-Gets [] hs s sound h = (s, rw append-nil, Gets-none s sound)
  load_materials-Gets (i ∷ is) hs s sound h =
      let (t, run, gets) = load_handle-Gets i s sound h.0 in
      let (u, run', gets') =
        load_materials-Gets is (hs ++ some i ∷ []) t gets.sound
          (Loadable-kept s t is gets.extends h.1) in
      (
        u,
        rw run (run' ∙ ap (λ (xs : List ResourceHandle). ok (xs, u)) (append_assoc hs _ _)),
        Gets-append (i ∷ []) is s t u gets gets',
      )
