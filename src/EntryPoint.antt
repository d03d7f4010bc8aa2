-- ===== src/EntryPoint.antt =====
-- Rune/src/entry_point.cpp, the constructor of `Engine` in Rune/src/core/engine.cpp, and
-- `configure_engine` of Sandbox/src/main.cpp: the program as a whole.
use rune_old.Base.{ℕ, Bool, false, not, [], List, codes, Outcome, ok, ◌>>=◌, ◌>>◌, rune_assert}
use rune_old.Engine.{SystemKind, Entry, EngineConfig, Call, Engine, run}

-- What `EngineConfig{}` holds.
abbrev pub no_config : EngineConfig
no_config = record { log_dir_path = []; config_filename = []; initial_scene = [] }

unfoldable pub configure_engine : EngineConfig → EngineConfig
configure_engine config = record {
  log_dir_path = codes "../../logs";
  config_filename = codes "../../config.ini";
  initial_scene = codes "scene_01.yaml";
}

-- The members of a new engine; a window that is not there is 0.
unfoldable pub new_engine : {D : Type 0} → D → EngineConfig → Engine D
new_engine zero_time config = record {
  config = config;
  is_running = false;
  delta_time = zero_time;
  primary_window = 0;
  system_map = [];
  system_priority_vec = [];
}

module _ {D W T : Type 0} (zero_time : D) (debug : Bool) (hash_code : SystemKind → ℕ)
    (perform : Call D → W → Outcome W) (close_requested : ℕ → W → Bool) (get_time : W → T)
    (elapsed : T → T → D) (sort : List Entry → List Entry) (new_window : W → ℕ) where
  -- `has_engine` says that `s_engine` is set. An exception ends the program, since what would catch it
  -- is not compiled.
  unfoldable pub main : Bool → ℕ → W → Outcome (ℕ × W)
  unfolding configure_engine new_engine
  main has_engine fuel w = do
    rune_assert debug (not has_engine)
    r ←
        run hash_code perform close_requested get_time elapsed sort new_window fuel
          (new_engine zero_time (configure_engine no_config)) w
    ok (0, r.1)
