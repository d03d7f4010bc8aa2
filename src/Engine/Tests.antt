-- ===== src/Engine/Tests.antt =====
-- The engine with an insertion sort, hashes that count the systems, and a log of the calls.
use rune_old.Base.{
  none, ℕ, ◌-◌, Bool, suc, ◌≡◌, refl, false, List, [], ◌∷◌, ◌++◌, arith, leb, codes, Outcome, ok,
  ◌>>=◌, for_each,
}
use rune_old.Engine.{
  SystemKind, events, scene, Call, initialise_system, shutdown_system, log_info, Engine,
  provide_all, call_systems, shutdown, run, set_system_priority, provide, provide_system,
}
use rune_old.Engine.Order.{startup_order, shutdown_order, startup_and_shutdown}
use rune_old.Engine.Loop.{performs, ClosesAt, frames}
use rune_old.Engine.Run.{with_window, started, ended, run-ends}
use rune_old.Engine.Table.{last_set, set_priorities, IsTable, set_priorities-IsTable}
use rune_old.Ini.{is_empty}
use rune_old.Engine.Samples.{sort, sort-Sorts, hash_code, hash_code-Distinct, engine}

abbrev perform : Call ℕ → List (Call ℕ) → Outcome (List (Call ℕ))
perform c w = ok (w ++ c ∷ [])

startup_and_shutdown_example :
    (call_systems hash_code perform initialise_system
        (provide_all hash_code sort engine).system_priority_vec
        (provide_all hash_code sort engine).system_map
        []
      ≡ for_each (λ k. perform (initialise_system k)) startup_order [])
    × (shutdown hash_code perform (provide_all hash_code sort engine) [] ≡ (
        perform (log_info (codes "Shutting all systems down.")) []
        >>= for_each (λ k. perform (shutdown_system k)) shutdown_order))
startup_and_shutdown_example =
    startup_and_shutdown hash_code perform sort sort-Sorts hash_code-Distinct engine [] refl

-- A world that counts the calls, and in which the window closes behind the thirtieth.
abbrev counting : Call ℕ → ℕ → ℕ
counting c w = suc w

abbrev closes_late : ℕ → ℕ → Bool
closes_late window w = leb 30 w

abbrev first_window : ℕ → ℕ
first_window w = 1

abbrev the_time : ℕ → ℕ
the_time w = w

abbrev between : ℕ → ℕ → ℕ
between a b = a - b

abbrev counted : ℕ
counted = started counting first_window (provide_all hash_code sort engine) 0

closes_in_third :
    ClosesAt counting hash_code closes_late the_time between
      (first_window (with_window counting 0))
      2
      (the_time counted)
      counted
unfolding provide_all provide provide_system set_system_priority is_empty
closes_in_third = (refl, (refl, refl))

run-ends_example :
    (stopped : Engine ℕ) × (stopped.is_running ≡ false)
    × (run hash_code (performs counting) closes_late the_time between sort first_window 3 engine 0
        ≡ ok (
          stopped,
          ended counting (
              frames counting hash_code closes_late the_time between
                (first_window (with_window counting 0))
                2
                (the_time counted)
                counted),
        ))
run-ends_example =
    run-ends counting hash_code sort sort-Sorts hash_code-Distinct closes_late the_time between
      first_window 2 3 engine 0 refl closes_in_third (omega arith)

-- A system is set twice.
abbrev settings : List (SystemKind × ℕ)
settings = (events, 90) ∷ (scene, 10) ∷ (events, 5) ∷ []

set_priorities-IsTable_example :
    IsTable hash_code
      (last_set settings (λ _. none))
      (set_priorities hash_code sort settings engine).system_priority_vec
set_priorities-IsTable_example =
    set_priorities-IsTable hash_code sort sort-Sorts hash_code-Distinct settings engine refl
