-- ===== src/Engine/Loop.antt =====
-- The engine from its start to its end, over systems that do not throw.
use rune_old.Base.{
  ℕ, zero, suc, ◌<◌, ◌≡◌, refl, ap, ◌∙◌, Bool, true, false, some, List, [], ◌∷◌, if◌then◌else◌,
  arith, Outcome, ok, ◌>>=◌, for_each,
}
use rune_old.Engine.{
  SystemKind, platform, renderer, Call, update_system, set_window_title, flush_renderer, sleep,
  Engine, get_system, update, run_loop, call_systems,
}
use rune_old.Engine.Order.{startup_order, call_systems-entries, call_system-found}
use rune_old.Engine.Startup.{ranking, entries}

pub taken : {A : Type 0} (b : Bool) (x y : A) → b ≡ true → elim b [ false ↦ x | true ↦ y ] ≡ y
taken true x y h = refl
taken false x y h = cc

-- `act` is what a call does.
module _ {D W : Type 0} (act : Call D → W → W) where
  abbrev pub performs : Call D → W → Outcome W
  performs c w = ok (act c w)

  abbrev pub each_act : (SystemKind → Call D) → List SystemKind → W → W
  each_act f [] w = w
  each_act f (k ∷ ks) w = each_act f ks (act (f k) w)

  pub for_each-act :
      (f : SystemKind → Call D) (ks : List SystemKind) (w : W)
      → for_each (λ k. performs (f k)) ks w ≡ ok (each_act f ks w)
  for_each-act f [] w = refl
  for_each-act f (k ∷ ks) w = for_each-act f ks (act (f k) w)

  -- The state behind the `update` of the systems, where the window is asked whether it closes.
  abbrev pub polled : D → W → W
  polled delta_time = each_act (update_system delta_time) startup_order

  module _ {T : Type 0} (hash_code : SystemKind → ℕ) (close_requested : ℕ → W → Bool)
      (get_time : W → T) (elapsed : T → T → D) where
    abbrev pub framed : ℕ → T → W → W
    framed window last w = act sleep (
        act flush_renderer (
          act (set_window_title window (elapsed (get_time w) last))
            (polled (elapsed (get_time w) last) w)))

    -- The close of the window is requested in the frame `n`, and not before.
    abbrev pub ClosesAt : ℕ → ℕ → T → W → Type 0
    ClosesAt window zero last w =
        close_requested window (polled (elapsed (get_time w) last) w) ≡ true
    ClosesAt window (suc n) last w =
        (close_requested window (polled (elapsed (get_time w) last) w) ≡ false)
        × ClosesAt window n (get_time w) (framed window last w)

    -- The state behind the frames `0` to `n`.
    abbrev pub frames : ℕ → ℕ → T → W → W
    frames window zero last w = framed window last w
    frames window (suc n) last w = frames window n (get_time w) (framed window last w)

  module _ (hash_code : SystemKind → ℕ) where
    -- The systems stand in their order and are there.
    abbrev pub Ready : Engine D → Type 0
    Ready e =
        (e.system_priority_vec ≡ entries hash_code ranking)
        × ((k : SystemKind) → get_system hash_code k e ≡ some k)

    pub call_systems-Ready :
        (f : SystemKind → Call D) (e : Engine D) (w : W)
        → Ready e
        → call_systems hash_code performs f e.system_priority_vec e.system_map w
          ≡ ok (each_act f startup_order w)
    unfolding get_system
    call_systems-Ready f e w (vec, found) =
        ap (λ es. call_systems hash_code performs f es e.system_map w) vec
        ∙ call_systems-entries hash_code performs f ranking e.system_map w found
        ∙ for_each-act f startup_order w

    update-Ready :
        (close_requested : ℕ → W → Bool) (e : Engine D) (w : W)
        → Ready e
        → update hash_code performs close_requested e w
          ≡ ok (
            record e {
              is_running =
                  if close_requested e.primary_window (polled e.delta_time w)
                  then false
                  else e.is_running;
            },
            act flush_renderer
                (act (set_window_title e.primary_window e.delta_time) (polled e.delta_time w)),
          )
    unfolding update get_system
    update-Ready close_requested e w ready =
        let running = record e {
          is_running =
              if close_requested e.primary_window (polled e.delta_time w)
              then false
              else e.is_running;
        } in
        let title = set_window_title e.primary_window e.delta_time in
        rw
          (
            update,
            call_systems-Ready (update_system e.delta_time) e w ready,
            call_system-found hash_code performs platform title running (polled e.delta_time w)
                (ready.1 platform),
            call_system-found hash_code performs renderer flush_renderer running
                (act title (polled e.delta_time w)) (ready.1 renderer),
          )
          refl

  module _ {T : Type 0} (hash_code : SystemKind → ℕ) (close_requested : ℕ → W → Bool)
      (get_time : W → T) (elapsed : T → T → D) where
    abbrev loop : ℕ → T → Engine D → W → Outcome (Engine D × W)
    loop = run_loop hash_code performs close_requested get_time elapsed

    -- The engine behind a frame.
    abbrev behind : T → Engine D → W → Engine D
    behind last e w = record e {
      delta_time = elapsed (get_time w) last;
      is_running =
          if close_requested e.primary_window (polled (elapsed (get_time w) last) w)
          then false
          else e.is_running;
    }

    run_loop-stopped :
        (fuel : ℕ) (last : T) (e : Engine D) (w : W)
        → e.is_running ≡ false
        → loop fuel last e w ≡ ok (e, w)
    unfolding run_loop
    run_loop-stopped zero last e w h = rw (h) refl
    run_loop-stopped (suc fuel) last e w h = rw (h) refl

    run_loop-round :
        (fuel : ℕ) (last : T) (e : Engine D) (w : W)
        → Ready hash_code e
        → e.is_running ≡ true
        → loop (suc fuel) last e w
          ≡ loop fuel
              (get_time w)
              (behind last e w)
              (framed hash_code close_requested get_time elapsed e.primary_window last w)
    unfolding run_loop get_system
    run_loop-round fuel last e w ready running =
        let timed = record e { delta_time = elapsed (get_time w) last } in
        let next : Engine D × W → Outcome (Engine D × W) =
          λ r. performs sleep r.1 >>= λ w'. loop fuel (get_time w) r.0 w' in
        taken e.is_running (ok (e, w)) (update hash_code performs close_requested timed w >>= next)
          running
        ∙ ap (λ m. m >>= next) (update-Ready hash_code close_requested timed w ready)

    -- The loop has ended on an engine whose systems stand as before.
    pub record Ends (e : Engine D) (w : W) (out : Outcome (Engine D × W)) : Type 0 where
      pub stopped : Engine D
      pub returns : out ≡ ok (stopped, w)
      pub not_running : stopped.is_running ≡ false
      pub same_window : stopped.primary_window ≡ e.primary_window
      pub ready : Ready hash_code stopped

    pub run_loop-Ends :
        (n fuel : ℕ) (last : T) (e : Engine D) (w : W)
        → Ready hash_code e
        → e.is_running ≡ true
        → ClosesAt hash_code close_requested get_time elapsed e.primary_window n last w
        → n < fuel
        → Ends e
            (frames hash_code close_requested get_time elapsed e.primary_window n last w)
            (loop fuel last e w)
    unfolding get_system
    run_loop-Ends n zero last e w ready running closes enough = absurd (omega arith)
    run_loop-Ends zero (suc fuel) last e w ready running closes enough =
        let next = behind last e w in
        let stops : next.is_running ≡ false = rw (closes) refl in
        record {
          stopped = next;
          returns =
              run_loop-round fuel last e w ready running
              ∙ run_loop-stopped fuel (get_time w) next _ stops;
          not_running = stops;
          same_window = refl;
          ready = ready;
        }
    run_loop-Ends (suc n) (suc fuel) last e w ready running (not_yet, closes) enough =
        let next = behind last e w in
        let goes_on : next.is_running ≡ true = rw (not_yet) running in
        let rest = run_loop-Ends n fuel (get_time w) next _ ready goes_on closes (omega arith) in
        record {
          stopped = rest.stopped;
          returns = run_loop-round fuel last e w ready running ∙ rest.returns;
          not_running = rest.not_running;
          same_window = rest.same_window;
          ready = rest.ready;
        }
