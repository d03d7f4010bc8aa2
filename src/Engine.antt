-- ===== src/Engine.antt =====
-- Rune/include/rune/core/engine.hpp and Rune/src/core/engine.cpp: `Engine`, which owns the systems,
-- orders them by priority, and runs them.
-- What the systems do is a parameter: how a call changes the rest of the program, or that it throws.
-- So are `typeid(T).hash_code()`, `std::ranges::sort` (which is not stable), the platform's clock and
-- the arithmetic of floats. A call of a system is made through its entry in the map.
pub mod Priority
pub mod Table
pub mod Startup
pub mod Order
pub mod Loop
pub mod Run
pub mod Samples
mod Tests
use rune_old.Base.{
  ℕ, zero, suc, Bool, true, false, not, Option, none, some, List, [], ◌∷◌, ◌++◌, ◌==◌, reverse,
  if◌then◌else◌, Bytes, codes, Outcome, ok, fault, ◌>>=◌, or_fault, for_each, missing_key,
  null_access, out_of_fuel, assertion_failed, require,
}
use rune_old.Ini.{is_empty}
use rune_old.Maps.{find, assign, nat_eq}

-- The classes that derive from `ISystem`.
pub data SystemKind : Type 0 where
  logging events platform renderer scripting resources scene : SystemKind

pub record EngineConfig : Type 0 where
  pub log_dir_path : Bytes
  pub config_filename : Bytes
  pub initial_scene : Bytes

-- An entry of `m_systemPriorityVec`: the hash of a system and its priority.
abbrev pub Entry : Type 0
Entry = ℕ × ℕ

-- The calls that the engine makes of the systems; `D` is the type of a frame's duration, which the
-- systems ask the engine for in their `update`.
pub data Call (D : Type 0) : Type 0 where
  initialise_system shutdown_system : SystemKind → Call D
  update_system : D → SystemKind → Call D
  create_window : Call D
  show_window : ℕ → Call D
  load_scene : Bytes → Call D
  set_window_title : ℕ → D → Call D
  flush_renderer : Call D
  log_info : Bytes → Call D
  sleep : Call D

pub record Engine (D : Type 0) : Type 0 where
  pub config : EngineConfig
  pub is_running : Bool
  pub delta_time : D
  pub primary_window : ℕ
  pub system_map : List (ℕ × SystemKind)
  pub system_priority_vec : List Entry

-- The loop of `set_system_priority` over the entries.
unfoldable pub update_priority : ℕ → ℕ → List Entry → List Entry
update_priority hash p [] = []
update_priority hash p ((h, q) ∷ es) =
    (if h == hash then (h, p) else (h, q)) ∷ update_priority hash p es

unfoldable pub has_priority : ℕ → List Entry → Bool
has_priority hash [] = false
has_priority hash ((h, q) ∷ es) = if h == hash then true else has_priority hash es

module _ {D : Type 0} (hash_code : SystemKind → ℕ) where
  unfoldable pub provide_system : SystemKind → Engine D → Engine D
  provide_system k e = record e { system_map = assign (hash_code k) k e.system_map }

  unfoldable pub get_system : SystemKind → Engine D → Option SystemKind
  get_system k e = find (hash_code k) e.system_map

  module _ (sort : List Entry → List Entry) where
    unfoldable pub set_system_priority : SystemKind → ℕ → Engine D → Engine D
    set_system_priority k p e =
        let updated = update_priority (hash_code k) p e.system_priority_vec in
        record e {
          system_priority_vec = sort (
              if has_priority (hash_code k) e.system_priority_vec
              then updated
              else updated ++ (hash_code k, p) ∷ []);
        }

    unfoldable pub provide : SystemKind → ℕ → Engine D → Engine D
    unfolding provide_system
    provide k p e = provide_system k (set_system_priority k p e)

    -- The systems that `initialise` provides, with their priorities.
    unfoldable pub provide_all : Engine D → Engine D
    provide_all e =
        let e1 = provide logging 100 e in
        let e2 = provide events 90 e1 in
        let e3 = provide platform 80 e2 in
        let e4 = provide renderer 50 e3 in
        let e5 = provide scripting 40 e4 in let e6 = provide resources 20 e5 in provide scene 10 e6

  module _ {W : Type 0} (perform : Call D → W → Outcome W) where
    -- `m_systemMap.at(system)->f()`, for the entries of the vector in turn.
    unfoldable pub call_systems :
        (SystemKind → Call D) → List Entry → List (ℕ × SystemKind) → W → Outcome W
    call_systems f [] systems w = ok w
    call_systems f ((hash, _) ∷ es) systems w = do
      k ← or_fault (find hash systems) missing_key
      w' ← perform (f k) w
      call_systems f es systems w'

    -- `get_system<T>()->f()`: a system that is missing is a null pointer.
    unfoldable pub call_system : SystemKind → Call D → Engine D → W → Outcome W
    unfolding get_system
    call_system k c e w = do _ ← or_fault (get_system k e) null_access; perform c w

    -- `new_window` is the handle that the platform has returned last.
    unfoldable pub initialise :
        (List Entry → List Entry) → (W → ℕ) → Engine D → W → Outcome (Engine D × W)
    initialise sort new_window e w = do
      let e' = provide_all sort e
      w1 ← call_systems initialise_system e'.system_priority_vec e'.system_map w
      w2 ← call_system logging (log_info (codes "All systems initialised.")) e' w1
      w3 ← call_system platform create_window e' w2
      let opened = record e' { primary_window = new_window w3 }
      w4 ← call_system platform (show_window opened.primary_window) opened w3
      w5 ←
          if is_empty opened.config.initial_scene
          then ok w4
          else call_system scene (load_scene opened.config.initial_scene) opened w4
      ok (opened, w5)

    unfoldable pub shutdown : Engine D → W → Outcome W
    shutdown e w = do
      w1 ← call_system logging (log_info (codes "Shutting all systems down.")) e w
      call_systems shutdown_system (reverse e.system_priority_vec) e.system_map w1

    module _ (close_requested : ℕ → W → Bool) where
      -- The duration of the frame is in the engine already.
      unfoldable pub update : Engine D → W → Outcome (Engine D × W)
      update e w = do
        w1 ← call_systems (update_system e.delta_time) e.system_priority_vec e.system_map w
        let e' = record e {
          is_running = if close_requested e.primary_window w1 then false else e.is_running;
        }
        w2 ← call_system platform (set_window_title e'.primary_window e'.delta_time) e' w1
        w3 ← call_system renderer flush_renderer e' w2
        ok (e', w3)

      module _ {T : Type 0} (get_time : W → T) (elapsed : T → T → D) where
        -- The loop of `run`; `last_time` is its local variable.
        unfoldable pub run_loop : ℕ → T → Engine D → W → Outcome (Engine D × W)
        run_loop zero last_time e w = if e.is_running then fault out_of_fuel else ok (e, w)
        run_loop (suc fuel) last_time e w = elim e.is_running [
          | false ↦ ok (e, w)
          | true ↦
              let time = get_time w in
              update (record e { delta_time = elapsed time last_time }) w >>= λ r.
              perform sleep r.1 >>= λ w'. run_loop fuel time r.0 w'
        ]

        unfoldable pub run :
            (List Entry → List Entry) → (W → ℕ) → ℕ → Engine D → W → Outcome (Engine D × W)
        unfolding run_loop
        run sort new_window fuel e w = do
          opened ← initialise sort new_window e w
          let running = record (opened.0) { is_running = true }
          stopped ← run_loop fuel (get_time opened.1) running opened.1
          w' ← shutdown stopped.0 stopped.1
          ok (stopped.0, w')
