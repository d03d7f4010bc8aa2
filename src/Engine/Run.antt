-- ===== src/Engine/Run.antt =====
-- `Engine::run` from the first call to the last, over systems that do not throw.
use rune_old.Base.{
  ℕ, ◌<◌, ◌≡◌, refl, ap, ◌∙◌, Bool, true, false, some, List, [], reverse, if◌then◌else◌, codes, ok,
}
use rune_old.Engine.{
  SystemKind, logging, platform, scene, Entry, Call, initialise_system, shutdown_system, log_info,
  create_window, show_window, load_scene, Engine, get_system, provide_all, initialise, shutdown,
  run, call_system,
}
use rune_old.Engine.Loop.{
  performs, each_act, for_each-act, Ready, call_systems-Ready, ClosesAt, frames, run_loop-Ends,
}
use rune_old.Engine.Order.{startup_order, shutdown_order, call_system-found, shutdown-entries}
use rune_old.Engine.Priority.{Sorts}
use rune_old.Engine.Startup.{ranking, Distinct, Stands-provide_all, get_system-provide_all}
use rune_old.Ini.{is_empty}

module _ {D W : Type 0} (act : Call D → W → W) where
  -- The state when the window has been created, and when `initialise` is through.
  abbrev pub with_window : W → W
  with_window w = act create_window (
      act (log_info (codes "All systems initialised."))
        (each_act act initialise_system startup_order w))

  abbrev pub started : (W → ℕ) → Engine D → W → W
  started new_window e w =
      let shown = act (show_window (new_window (with_window w))) (with_window w) in
      if is_empty e.config.initial_scene
      then shown
      else act (load_scene e.config.initial_scene) shown

  -- The shutdown of the systems.
  abbrev pub ended : W → W
  ended w =
      each_act act shutdown_system shutdown_order
        (act (log_info (codes "Shutting all systems down.")) w)

  module _ (hash_code : SystemKind → ℕ) where
    shutdown-Ready :
        (e : Engine D) (w : W)
        → Ready act hash_code e
        → shutdown hash_code (performs act) e w ≡ ok (ended w)
    unfolding get_system
    shutdown-Ready e w (vec, found) =
        shutdown-entries hash_code (performs act) (reverse ranking) e w (ap reverse vec) found
        ∙ for_each-act act shutdown_system shutdown_order _

    module _ (sort : List Entry → List Entry) (sorts : Sorts sort)
        (distinct : Distinct hash_code) where
      provide_all-Ready :
          (e : Engine D)
          → e.system_priority_vec ≡ []
          → Ready act hash_code (provide_all hash_code sort e)
      provide_all-Ready e h = (
        (Stands-provide_all hash_code sort sorts distinct e h).0,
        get_system-provide_all hash_code sort sorts distinct e h,
      )

      -- The scene is loaded if there is one.
      initial_scene_lem :
          (e : Engine D) (w : W)
          → get_system hash_code scene e ≡ some scene
          → (if is_empty e.config.initial_scene
              then ok w
              else call_system hash_code
                  (performs act)
                  scene
                  (load_scene e.config.initial_scene)
                  e
                  w)
            ≡ ok (
                if is_empty e.config.initial_scene
                then w
                else act (load_scene e.config.initial_scene) w)
      initial_scene_lem e w found =
          rw
            (call_system-found hash_code (performs act) scene (load_scene e.config.initial_scene) e
              w found)
            (pushed (is_empty e.config.initial_scene) _ _)
        where
          pushed : (b : Bool) (x y : W) → (if b then ok x else ok y) ≡ ok (if b then x else y)
          pushed true x y = refl
          pushed false x y = refl

      initialise-started :
          (new_window : W → ℕ) (e : Engine D) (w : W)
          → e.system_priority_vec ≡ []
          → initialise hash_code (performs act) sort new_window e w
            ≡ ok (
              record (provide_all hash_code sort e) { primary_window = new_window (with_window w) },
              started new_window (provide_all hash_code sort e) w,
            )
      unfolding initialise get_system
      initialise-started new_window e w h =
          let e' = provide_all hash_code sort e in
          let ready = provide_all-Ready e h in
          let w1 = each_act act initialise_system startup_order w in
          let line = log_info (codes "All systems initialised.") in
          let w2 = act line w1 in
          let w3 = with_window w in
          let opened = record e' { primary_window = new_window w3 } in
          let show = show_window (new_window w3) in
          rw
            (
              initialise,
              call_systems-Ready act hash_code initialise_system e' w ready,
              call_system-found hash_code (performs act) logging line e' w1 (ready.1 logging),
              call_system-found hash_code (performs act) platform create_window e' w2
                  (ready.1 platform),
              call_system-found hash_code (performs act) platform show opened w3 (ready.1 platform),
              initial_scene_lem opened (act show w3) (ready.1 scene),
            )
            refl

      -- The engine runs and stops: on an engine with no systems, over systems that do not throw,
      -- whatever sort is used and whatever distinct hashes the classes have, if the close of the
      -- window is requested in the frame `n` then fuel for more than `n` frames is enough for `run` to
      -- return, with an engine that is not running. It has initialised the systems in their order,
      -- created and shown the window, loaded the initial scene if there is one, gone through the
      -- frames `0` to `n`, the last of them to its end, and shut the systems down in the opposite
      -- order.
      pub run-ends :
          {T : Type 0} (close_requested : ℕ → W → Bool) (get_time : W → T) (elapsed : T → T → D)
          (new_window : W → ℕ) (n fuel : ℕ) (e : Engine D) (w : W)
          → e.system_priority_vec ≡ []
          → ClosesAt act hash_code close_requested get_time elapsed
              (new_window (with_window w))
              n
              (get_time (started new_window (provide_all hash_code sort e) w))
              (started new_window (provide_all hash_code sort e) w)
          → n < fuel
          → (stopped : Engine D) × (stopped.is_running ≡ false)
            × (run hash_code
                  (performs act)
                  close_requested
                  get_time
                  elapsed
                  sort
                  new_window
                  fuel
                  e
                  w
                ≡ ok (
                  stopped,
                  ended (
                      frames act hash_code close_requested get_time elapsed
                        (new_window (with_window w))
                        n
                        (get_time (started new_window (provide_all hash_code sort e) w))
                        (started new_window (provide_all hash_code sort e) w)),
                ))
      unfolding run get_system
      run-ends close_requested get_time elapsed new_window n fuel e w h closes enough =
          let e' = provide_all hash_code sort e in
          let w' = started new_window e' w in
          let running = record e' {
            primary_window = new_window (with_window w);
            is_running = true;
          } in
          let loop =
            run_loop-Ends act hash_code close_requested get_time elapsed n fuel (get_time w')
              running w' (provide_all-Ready e h) refl closes enough in
          (
            loop.stopped,
            loop.not_running,
            rw
                (
                  run,
                  initialise-started new_window e w h,
                  loop.returns,
                  shutdown-Ready loop.stopped
                      (frames act hash_code close_requested get_time elapsed running.primary_window
                        n (get_time w') w')
                      loop.ready,
                )
                refl,
          )
