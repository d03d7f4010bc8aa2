-- ===== src/Engine/Order.antt =====
-- The order in which the engine starts its systems and shuts them down.
use rune_old.Base.{
  bind-ap, ℕ, ◌≡◌, refl, ap, some, List, [], ◌∷◌, reverse, codes, Outcome, ◌>>=◌, for_each,
}
use rune_old.Engine.Priority.{Sorts}
use rune_old.Engine.Startup.{
  Ranking, ranking, Distinct, entries, Stands-provide_all, get_system-provide_all,
}
use rune_old.Engine.{
  SystemKind, logging, events, platform, renderer, scripting, resources, scene, Entry, Call,
  initialise_system, shutdown_system, log_info, Engine, get_system, provide_all, call_systems,
  call_system, shutdown,
}
use rune_old.Maps.{find, nat_eq}

abbrev pub startup_order : List SystemKind
startup_order = logging ∷ events ∷ platform ∷ renderer ∷ scripting ∷ resources ∷ scene ∷ []

abbrev pub shutdown_order : List SystemKind
shutdown_order = scene ∷ resources ∷ scripting ∷ renderer ∷ platform ∷ events ∷ logging ∷ []

abbrev kinds : Ranking → List SystemKind
kinds [] = []
kinds ((k, p) ∷ r) = k ∷ kinds r

module _ (hash_code : SystemKind → ℕ) {D W : Type 0} (perform : Call D → W → Outcome W) where
  -- The calls of the systems of a ranking.
  pub call_systems-entries :
      (f : SystemKind → Call D) (r : Ranking) (systems : List (ℕ × SystemKind)) (w : W)
      → ((k : SystemKind) → find (hash_code k) systems ≡ some k)
      → call_systems hash_code perform f (entries hash_code r) systems w
        ≡ for_each (λ k. perform (f k)) (kinds r) w
  unfolding call_systems
  call_systems-entries f [] systems w h = refl
  call_systems-entries f ((k, p) ∷ r) systems w h =
      rw (h k) (bind-ap (perform (f k) w) _ _ (λ w'. call_systems-entries f r systems w' h))

  pub call_system-found :
      (k : SystemKind) (c : Call D) (e : Engine D) (w : W)
      → get_system hash_code k e ≡ some k
      → call_system hash_code perform k c e w ≡ perform c w
  unfolding call_system
  call_system-found k c e w h = rw (h)

  -- `shutdown`, where the vector is that of a ranking.
  pub shutdown-entries :
      (r : Ranking) (e : Engine D) (w : W)
      → reverse e.system_priority_vec ≡ entries hash_code r
      → ((k : SystemKind) → get_system hash_code k e ≡ some k)
      → shutdown hash_code perform e w ≡ (
          perform (log_info (codes "Shutting all systems down.")) w
          >>= for_each (λ k. perform (shutdown_system k)) (kinds r))
  unfolding shutdown get_system
  shutdown-entries r e w v found =
      rw
        (
          v,
          call_system-found logging (log_info (codes "Shutting all systems down.")) e w
              (found logging),
        )
        (bind-ap (perform (log_info (codes "Shutting all systems down.")) w) _ _
          (λ w'. call_systems-entries shutdown_system r e.system_map w' found))

  module _ (sort : List Entry → List Entry) (sorts : Sorts sort)
      (distinct : Distinct hash_code) where
    -- Behind `provide_all` on an engine with no entries, whatever sort is used and whatever distinct
    -- hashes the classes have, the initialise pass calls logging, events, platform, renderer,
    -- scripting, resources and scene, in this order, and `shutdown` logs a line and calls them in the
    -- opposite order; a call that throws ends either pass.
    pub startup_and_shutdown :
        (e : Engine D) (w : W)
        → e.system_priority_vec ≡ []
        → (call_systems hash_code perform initialise_system
              (provide_all hash_code sort e).system_priority_vec
              (provide_all hash_code sort e).system_map
              w
            ≡ for_each (λ k. perform (initialise_system k)) startup_order w)
          × (shutdown hash_code perform (provide_all hash_code sort e) w ≡ (
              perform (log_info (codes "Shutting all systems down.")) w
              >>= for_each (λ k. perform (shutdown_system k)) shutdown_order))
    unfolding get_system
    startup_and_shutdown e w h =
        let v = (Stands-provide_all hash_code sort sorts distinct e h).0 in
        let found = get_system-provide_all hash_code sort sorts distinct e h in
        (
          rw v (call_systems-entries initialise_system ranking _ w found),
          shutdown-entries (reverse ranking) (provide_all hash_code sort e) w (ap reverse v) found,
        )
