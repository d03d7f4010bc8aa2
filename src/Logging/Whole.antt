-- ===== src/Logging/Whole.antt =====
-- What is logged while the engine starts its systems and shuts them down.
use rune_old.Base.{
  ℕ, ◌≡◌, refl, sym, ap, ◌∙◌, Bool, true, false, List, [], ◌∷◌, ◌++◌, append_assoc, append-nil,
  if◌then◌else◌, Bytes, codes, Outcome, ok, ◌>>=◌, for_each, All, bind-ap, bind_assoc,
}
use rune_old.Paths.{join}
use rune_old.Logging.{
  LogLevel, info, Severity, convert_log_level, LogCall, make_logger, set_pattern, set_level,
  log_line, flush_logger, shutdown_library, SystemLogging, ask, new_logging, log, flush, log_macro,
}
use rune_old.Logging
use rune_old.Engine.{
  SystemKind, logging, events, platform, renderer, scripting, resources, scene, Entry, Call,
  initialise_system, shutdown_system, log_info, Engine, provide_all, call_systems,
}
use rune_old.Engine
use rune_old.Engine.Order.{startup_order, shutdown_order, startup_and_shutdown}
use rune_old.Engine.Priority.{Sorts}
use rune_old.Engine.Startup.{Distinct}
use rune_old.Logging.Said.{Line, said, said-append, ask-ask, log_macro-said, log_each}

module _ (distro : Bool) where
  module _ {D : Type 0} (lines : Call D → List Line) where
    -- The calls of the engine, as far as they log: a system other than the logging logs some lines.
    unfoldable pub perform : Call D → SystemLogging → Outcome SystemLogging
    perform (initialise_system logging) s = Logging.initialise distro s
    perform (shutdown_system logging) s = Logging.shutdown distro s
    perform (log_info text) s = log_macro distro info text s
    perform c s = for_each (λ (l : Line). log_macro distro l.0 l.1) (lines c) s

    -- The lines of the calls of some systems.
    abbrev pub lines_of : (SystemKind → Call D) → List SystemKind → List Line
    lines_of f [] = []
    lines_of f (k ∷ ks) = lines (f k) ++ lines_of f ks

    for_each-said :
        (f : SystemKind → Call D) (ks : List SystemKind) (s : SystemLogging)
        → All
            (λ k.
              (u : SystemLogging)
              → u.has_logger ≡ true
              → perform (f k) u ≡ ok (ask (said distro (lines (f k))) u))
            ks
        → s.has_logger ≡ true
        → for_each (λ k. perform (f k)) ks s ≡ ok (ask (said distro (lines_of f ks)) s)
    for_each-said f [] s each h = ap (λ c. ok (record s { calls = c })) (sym (append-nil s.calls))
    for_each-said f (k ∷ ks) s each h = rw (each.0 s h) (
        for_each-said f ks (ask (said distro (lines (f k))) s) each.1 h
        ∙ ap ok (
            ask-ask (said distro (lines (f k))) (said distro (lines_of f ks)) s
            ∙ ap (λ c. ask c s) (sym (said-append distro (lines (f k)) (lines_of f ks)))))

    -- Systems other than the logging.
    abbrev pub others_up : List SystemKind
    others_up = events ∷ platform ∷ renderer ∷ scripting ∷ resources ∷ scene ∷ []

    abbrev pub others_down : List SystemKind
    others_down = scene ∷ resources ∷ scripting ∷ renderer ∷ platform ∷ events ∷ []

    -- The logger as the start makes it.
    abbrev pub set_up : Bytes → List LogCall
    set_up dir =
        make_logger (join dir (codes "log.txt"))
        ∷ set_pattern (codes "%T:%e | %^%-8l%$ | thread=%-6t | %s:%# - %v")
        ∷ set_level (if distro then Severity.info else Severity.trace)
        ∷ []

    abbrev made : Bytes → SystemLogging
    made dir = record { log_dir = dir; has_logger = true; calls = set_up dir }

    abbrev pub first_line : Line
    first_line = (info, codes "Logging system initialised.")

    abbrev pub down_line : Line
    down_line = (info, codes "Shutting all systems down.")

    abbrev pub last_line : Line
    last_line = (info, codes "Logging system is shutting down.")

    started_up :
        (dir : Bytes)
        → for_each (λ k. perform (initialise_system k)) startup_order (new_logging dir)
          ≡ ok (ask (said distro (first_line ∷ lines_of initialise_system others_up)) (made dir))
    unfolding perform Logging.initialise
    started_up dir =
        let begun = ask (said distro (first_line ∷ [])) (made dir) in
        let said_by = λ (k : SystemKind) (u : SystemLogging) (h : u.has_logger ≡ true).
          log_each distro (lines (initialise_system k)) u h in
        rw (log_macro-said distro first_line (made dir) refl) (
          for_each-said initialise_system others_up begun
            (
              said_by events,
              (
                said_by platform,
                (said_by renderer, (said_by scripting, (said_by resources, (said_by scene, tt)))),
              ),
            )
            refl
          ∙ ap ok (
              ask-ask (said distro (first_line ∷ [])) _ (made dir)
              ∙ ap (λ c. ask c (made dir))
                  (sym
                    (said-append distro (first_line ∷ []) (lines_of initialise_system others_up)))))

    for_each-append :
        (f : SystemKind → SystemLogging → Outcome SystemLogging) (xs ys : List SystemKind)
        (s : SystemLogging)
        → for_each f (xs ++ ys) s ≡ (for_each f xs s >>= for_each f ys)
    for_each-append f [] ys s = refl
    for_each-append f (x ∷ xs) ys s =
        bind-ap (f x s) _ _ (λ s'. for_each-append f xs ys s')
        ∙ sym (bind_assoc (f x s) (for_each f xs) (for_each f ys))

    shutdown-said :
        (s : SystemLogging)
        → s.has_logger ≡ true
        → Logging.shutdown distro s
          ≡ ok (record s {
            has_logger = false;
            calls = s.calls ++ said distro (last_line ∷ []) ++ flush_logger ∷ shutdown_library ∷ [];
          })
    unfolding Logging.shutdown flush
    shutdown-said s h =
        let said_last = ask (said distro (last_line ∷ [])) s in
        rw (Logging.shutdown, log_macro-said distro last_line s h, h)
          (ap (λ c. ok (record s { has_logger = false; calls = c }))
            (append_assoc said_last.calls (flush_logger ∷ []) (shutdown_library ∷ [])))

    regrouped :
        (c : List LogCall) (l : Line) (ls ms : List Line)
        → ((c ++ said distro (l ∷ [])) ++ said distro ls) ++ said distro ms
          ≡ c ++ said distro (l ∷ ls ++ ms)
    regrouped c l ls ms =
        append_assoc (c ++ said distro (l ∷ [])) (said distro ls) (said distro ms)
        ∙ append_assoc c (said distro (l ∷ [])) (said distro ls ++ said distro ms)
        ∙ ap (λ x. c ++ (said distro (l ∷ []) ++ x)) (sym (said-append distro ls ms))
        ∙ ap (λ x. c ++ x) (sym (said-append distro (l ∷ []) (ls ++ ms)))

    shut_down :
        (s : SystemLogging)
        → s.has_logger ≡ true
        → (perform (log_info down_line.1) s
            >>= for_each (λ k. perform (shutdown_system k)) shutdown_order)
          ≡ ok (record s {
            has_logger = false;
            calls =
                s.calls
                ++ said distro (down_line ∷ lines_of shutdown_system others_down ++ last_line ∷ [])
                ++ flush_logger ∷ shutdown_library ∷ [];
          })
    unfolding perform
    shut_down s h =
        let said_by = λ (k : SystemKind) (u : SystemLogging) (e : u.has_logger ≡ true).
          log_each distro (lines (shutdown_system k)) u e in
        let downs = lines_of shutdown_system others_down in
        let s1 = ask (said distro (down_line ∷ [])) s in
        let s2 = ask (said distro downs) s1 in
        let all =
          for_each-said shutdown_system others_down s1
            (
              said_by scene,
              (
                said_by resources,
                (said_by scripting, (said_by renderer, (said_by platform, (said_by events, tt)))),
              ),
            )
            h in
        let down : SystemLogging → Outcome SystemLogging =
          for_each (λ k. perform (shutdown_system k)) (logging ∷ []) in
        rw (log_macro-said distro down_line s h) (
          for_each-append (λ k. perform (shutdown_system k)) others_down (logging ∷ []) s1
          ∙ ap (λ m. m >>= down) all
          ∙ rw (shutdown-said s2 h) (
              ap
                (λ c. ok (record s {
                  has_logger = false;
                  calls = c ++ flush_logger ∷ shutdown_library ∷ [];
                }))
                (regrouped s.calls down_line downs (last_line ∷ []))))

    -- Nothing is logged through a null pointer, and no line is lost: whatever lines the other systems
    -- log in their `initialise` and `shutdown`, and whatever is logged in between, both passes of the
    -- engine return, whatever sort is used and whatever distinct hashes the classes have. Behind them
    -- the library was asked to make the logger once, with the level of the build, for all the lines in
    -- their order, those of the start by falling and those of the end by rising priority of the
    -- systems, or for none in a build for distribution, then to flush the logger and to shut down,
    -- and the logger is gone.
    pub startup_and_shutdown-said :
        (hash_code : SystemKind → ℕ) (sort : List Entry → List Entry) (e : Engine D) (dir : Bytes)
        (between : List Line)
        → Sorts sort
        → Distinct hash_code
        → e.system_priority_vec ≡ []
        → (s1 : SystemLogging) × (s2 : SystemLogging) × (s3 : SystemLogging) × (call_systems
              hash_code perform initialise_system
              (provide_all hash_code sort e).system_priority_vec
              (provide_all hash_code sort e).system_map
              (new_logging dir)
            ≡ ok s1)
          × (for_each (λ (l : Line). log_macro distro l.0 l.1) between s1 ≡ ok s2)
          × (Engine.shutdown hash_code perform (provide_all hash_code sort e) s2 ≡ ok s3)
          × (s3.has_logger ≡ false)
          × (s3.calls
              ≡ ((set_up dir ++ said distro (first_line ∷ lines_of initialise_system others_up))
                  ++ said distro between)
                ++ said distro (down_line ∷ lines_of shutdown_system others_down ++ last_line ∷ [])
                ++ flush_logger ∷ shutdown_library ∷ [])
    startup_and_shutdown-said hash_code sort e dir between sorts distinct empty =
        let s1 = ask (said distro (first_line ∷ lines_of initialise_system others_up)) (made dir) in
        let s2 = ask (said distro between) s1 in
        let up =
          (startup_and_shutdown hash_code perform sort sorts distinct e (new_logging dir)
            empty).0 in
        let down = (startup_and_shutdown hash_code perform sort sorts distinct e s2 empty).1 in
        (
          s1,
          s2,
          _,
          up ∙ started_up dir,
          log_each distro between s1 refl,
          down ∙ shut_down s2 refl,
          refl,
          refl,
        )
