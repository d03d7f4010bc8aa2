-- ===== src/World/Started.antt =====
-- The start of the engine over its systems: `Engine::initialise` returns, and leaves the program between
-- two frames.
use rune_old.Base.{
  ℕ, ◌≡◌, refl, ap, ◌∙◌, some, List, [], if◌then◌else◌, Outcome, ok, for_each, Returns,
  Returns-bind, Returns-of_eq, Bool-cases, inl, inr, codes,
}
use rune_old.Engine.{
  SystemKind, logging, platform, renderer, scripting, resources, scene, Entry, Call,
  initialise_system, create_window, show_window, load_scene, log_info, Engine, get_system,
  provide_all, provide, set_system_priority, initialise, call_systems, call_system,
}
use rune_old.Engine.Order.{startup_order, call_systems-entries, call_system-found}
use rune_old.Engine.Priority.{Sorts}
use rune_old.Engine.Startup.{ranking, Distinct, Stands-provide_all, get_system-provide_all}
use rune_old.Ini.{is_empty}
use rune_old.Platform
use rune_old.Platform.{glfw_init, new_platform, glfw_call}
use rune_old.Resources
use rune_old.Resources.{SystemResources}
use rune_old.Resources.Typed.{nothing_registered}
use rune_old.Scenes.{SystemScene}
use rune_old.World.Life.{Outside, lifecycle, new_window}
use rune_old.World.Round.{Standing}
use rune_old.World.Run.{polls}
use rune_old.World.Untouched.{Untouched}
use rune_old.World.{World, Parts, perform}
use rune_old.World.Systems.{
  Provides, cleared, polling, windowed, first_scene, platform-Untouched, renderer-Untouched,
  scripting-Untouched, resources-Untouched, scene-Untouched, window-Untouched, show-Untouched,
  load-Untouched,
}

config-provide_all :
    {D : Type 0} (hash_code : SystemKind → ℕ) (sort : List Entry → List Entry) (e : Engine D)
    → (provide_all hash_code sort e).config ≡ e.config
unfolding provide_all provide set_system_priority
config-provide_all hash_code sort e = refl

module _ {F I V2 V3 Q M Reg R G W Res : Type 0} (parts : Parts F I V2 V3 Q M Reg R G W Res)
    (o : Outside V3 Q Reg R W Res) (provides : Provides parts o) {t : SystemResources Res}
    (registered : Resources.initialise parts.debug o.strid o.exists o.load_registry_yaml o.factory
        o.entries nothing_registered
      ≡ ok t) where
  abbrev act : Call F → World F I V2 M Reg R G W Res → Outcome (World F I V2 M Reg R G W Res)
  act = perform parts (lifecycle parts o)

  -- Behind the resources, the table is that of the registry file.
  systems-Untouched :
      (w : World F I V2 M Reg R G W Res)
      → Untouched new_platform nothing_registered (cleared parts o) w
      → Returns
          (Untouched (polling parts o) t (cleared parts o))
          (for_each (λ k. act (initialise_system k)) startup_order w)
  unfolding perform lifecycle
  systems-Untouched w u =
      let old = Untouched (polling parts o) nothing_registered (cleared parts o) in
      let new = Untouched (polling parts o) t (cleared parts o) in
      Returns-bind old new (act (initialise_system platform) w) _
        (platform-Untouched parts o provides w u)
        (λ w1 u1.
          Returns-bind old new (act (initialise_system renderer) w1) _
            (renderer-Untouched parts o provides (polling parts o) w1 u1)
            (λ w2 u2.
              Returns-bind old new (act (initialise_system scripting) w2) _
                (scripting-Untouched parts o provides (polling parts o) w2 u2)
                (λ w3 u3.
                  Returns-bind new new (act (initialise_system resources) w3) _
                    (resources-Untouched parts o provides (polling parts o) w3 u3 registered)
                    (λ w4 u4. scene-Untouched parts o (polling parts o) w4 u4))))

  -- The engine has started: its systems stand in their order, nothing is posted, submitted or filmed,
  -- GLFW has not polled, and the scene and the table of resources are the given ones.
  pub record Opened (hash_code : SystemKind → ℕ) (s : SystemScene Reg) (t' : SystemResources Res)
      (e : Engine F) (w : World F I V2 M Reg R G W Res) : Type 0 where
    pub standing : Standing parts (lifecycle parts o) hash_code e
    pub windows : Platform.Platform
    pub untouched : Untouched windows t' s w
    pub no_polls : polls windows.calls ≡ 0

  module _ (hash_code : SystemKind → ℕ) (sort : List Entry → List Entry) (sorts : Sorts sort)
      (distinct : Distinct hash_code) {s : SystemScene Reg} {t' : SystemResources Res} where
    -- The initial scene is loaded if there is one.
    first-Untouched :
        (e : Engine F) (window : ℕ) (w : World F I V2 M Reg R G W Res)
        → first_scene parts o e.config.initial_scene t ≡ ok (s, t')
        → get_system hash_code scene e ≡ some scene
        → Untouched
            (Platform.show_window parts.glfw window (windowed parts o))
            t
            (cleared parts o)
            w
        → Returns (Untouched (Platform.show_window parts.glfw window (windowed parts o)) t' s) (
            if is_empty e.config.initial_scene
            then ok w
            else call_system hash_code act scene (load_scene e.config.initial_scene) e w)
    first-Untouched e window w first found u = elim (Bool-cases (is_empty e.config.initial_scene)) [
      | inl none_given ↦
          let same : ok (cleared parts o, t) ≡ ok (s, t') = rw none_given at first in
          rw none_given (
            w,
            refl,
            record {
              nothing_posted = u.nothing_posted;
              unfilmed = u.unfilmed;
              windows = u.windows;
              resources = u.resources ∙ (cc);
              scene = u.scene ∙ (cc);
            },
          )
      | inr given ↦
          let call = load_scene e.config.initial_scene in
          rw given (
            Returns-of_eq (call_system-found hash_code act scene call e w found)
              (load-Untouched parts o window e.config.initial_scene w first given u))
    ]

    pub initialise-Opened :
        (e : Engine F) (w : World F I V2 M Reg R G W Res)
        → e.system_priority_vec ≡ []
        → Untouched new_platform nothing_registered (cleared parts o) w
        → first_scene parts o e.config.initial_scene t ≡ ok (s, t')
        → Returns
            (λ r. Opened hash_code s t' r.0 r.1)
            (initialise hash_code act sort new_window e w)
    unfolding initialise get_system perform lifecycle Platform.create_window
    initialise-Opened e w none_yet u first =
        let e' = provide_all hash_code sort e in
        let vec = (Stands-provide_all hash_code sort sorts distinct e none_yet).0 in
        let found = get_system-provide_all hash_code sort sorts distinct e none_yet in
        let systems =
          ap (λ es. call_systems hash_code act initialise_system es e'.system_map w) vec
          ∙ call_systems-entries hash_code act initialise_system ranking e'.system_map w found in
        let first' : first_scene parts o e'.config.initial_scene t ≡ ok (s, t') =
          rw (config-provide_all hash_code sort e) first in
        let started = Untouched (polling parts o) t (cleared parts o) in
        let line : Call F = log_info (codes "All systems initialised.") in
        let Q : Engine F × World F I V2 M Reg R G W Res → Type 0 =
          λ r. Opened hash_code s t' r.0 r.1 in
        Returns-bind started Q _ _ (Returns-of_eq systems (systems-Untouched w u)) (λ w1 u1.
          Returns-bind started Q _ _
            (Returns-of_eq (call_system-found hash_code act logging line e' w1 (found logging))
              (w1, refl, u1))
            (λ w2 u2.
              Returns-bind (Untouched (windowed parts o) t (cleared parts o)) Q _ _
                (Returns-of_eq
                  (call_system-found hash_code act platform create_window e' w2 (found platform))
                  (window-Untouched parts o w2 u2))
                (λ w3 u3.
                  let opened = record e' { primary_window = new_window w3 } in
                  let window = opened.primary_window in
                  let shown = Platform.show_window parts.glfw window (windowed parts o) in
                  Returns-bind (Untouched shown t (cleared parts o)) Q _ _
                    (Returns-of_eq
                      (call_system-found hash_code act platform (show_window window) opened w3
                        (found platform))
                      (show-Untouched parts o provides (windowed parts o) w3 u3 window))
                    (λ w4 u4.
                      Returns-bind (Untouched shown t' s) Q _ _
                        (first-Untouched opened window w4 first' (found scene) u4)
                        (λ w5 u5. (
                          (opened, w5),
                          refl,
                          record {
                            standing = (vec, found);
                            windows = shown;
                            untouched = u5;
                            no_polls = refl;
                          },
                        ))))))
