-- ===== src/Logging/Tests.antt =====
-- An engine whose renderer logs two lines at its start.
use rune_old.Base.{ℕ, ◌≡◌, refl, false, List, [], ◌∷◌, ◌++◌, codes, ok, for_each}
use rune_old.Engine
use rune_old.Engine.{
  SystemKind, renderer, Call, initialise_system, shutdown_system, Engine, provide_all, call_systems,
}
use rune_old.Engine.Samples.{sort, sort-Sorts, hash_code, hash_code-Distinct, engine}
use rune_old.Logging.{
  info, warn, SystemLogging, new_logging, log_macro, flush_logger, shutdown_library,
}
use rune_old.Logging.Said.{Line, said}
use rune_old.Logging.Whole.{
  perform, lines_of, others_up, others_down, set_up, first_line, down_line, last_line,
  startup_and_shutdown-said,
}

abbrev lines : Call ℕ → List Line
lines (initialise_system renderer) = (info, codes "device created") ∷ (warn, codes "no vsync") ∷ []
lines c = []

abbrev between : List Line
between = (info, codes "frame") ∷ []

startup_and_shutdown-said_example :
    (s1 : SystemLogging) × (s2 : SystemLogging) × (s3 : SystemLogging) × (call_systems hash_code
        (perform false lines)
        initialise_system
        (provide_all hash_code sort engine).system_priority_vec
        (provide_all hash_code sort engine).system_map
        (new_logging (codes "logs"))
      ≡ ok s1)
    × (for_each (λ (l : Line). log_macro false l.0 l.1) between s1 ≡ ok s2)
    × (Engine.shutdown hash_code (perform false lines) (provide_all hash_code sort engine) s2
        ≡ ok s3)
    × (s3.has_logger ≡ false)
    × (s3.calls
        ≡ ((set_up false lines (codes "logs")
              ++ said false (
                  first_line false lines
                  ∷ lines_of false lines initialise_system (others_up false lines)))
            ++ said false between)
          ++ said false (
              down_line false lines ∷ lines_of false lines shutdown_system (others_down false lines)
              ++ last_line false lines ∷ [])
          ++ flush_logger ∷ shutdown_library ∷ [])
startup_and_shutdown-said_example =
    startup_and_shutdown-said false lines hash_code sort engine (codes "logs") between sort-Sorts
      hash_code-Distinct refl
