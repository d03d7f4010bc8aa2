-- ===== src/World/Run.antt =====
-- The loop of `Engine::run` over the systems, from a state between two frames to the end.
use rune_old.Base.{
  ℕ, zero, suc, ◌+◌, ◌-◌, ◌*◌, ◌≤◌, ◌<◌, ◌≡◌, refl, sym, ap, subst, ◌∙◌, true, false, List, [], ◌∷◌,
  ◌++◌, Bool-cases, inl, inr, arith, length, Outcome, ok, ◌>>=◌,
}
use rune_old.Engine.{SystemKind, Call, Engine, get_system, update, run_loop}
use rune_old.Engine.Loop.{taken}
use rune_old.Events.Delivery.{Quiet}
use rune_old.Platform
use rune_old.Platform.{GlfwCall, glfw_poll_events, glfw_set_window_title, Glfw}
use rune_old.Renderer.Flush.{Works}
use rune_old.Renderer.Submit.{Object}
use rune_old.Resources.{SystemResources}
use rune_old.Scenes.Drawn.{Pictures}
use rune_old.World.Round.{Standing, behind, closes, Idle, Shown, update-Shows}
use rune_old.World.Scene.{ScriptsReturn, MovesKeep}
use rune_old.World.{World, Parts, perform, close_requested}

-- How often GLFW has been asked to poll.
abbrev pub polls : List GlfwCall → ℕ
polls [] = 0
polls (glfw_poll_events ∷ cs) = suc (polls cs)
polls (_ ∷ cs) = polls cs

pub polls-append : (cs ds : List GlfwCall) → polls (cs ++ ds) ≡ polls cs + polls ds
polls-append [] ds = omega arith
polls-append (c ∷ cs) ds = ground (arith, polls-append cs ds)

abbrev pub now :
    {F I V2 V3 Q M Reg R G W Res : Type 0}
    → Parts F I V2 V3 Q M Reg R G W Res
    → World F I V2 M Reg R G W Res
    → F
now parts w = Platform.get_time parts.glfw w.window_system

module _ {F I V2 V3 Q M Reg R G W Res : Type 0} (parts : Parts F I V2 V3 Q M Reg R G W Res)
    (elsewhere : Call F → World F I V2 M Reg R G W Res → Outcome (World F I V2 M Reg R G W Res))
    (hash_code : SystemKind → ℕ) (elapsed : F → F → F) (Fine : Reg → Type 0) where
  abbrev pub loop :
      ℕ
      → F
      → Engine F
      → World F I V2 M Reg R G W Res
      → Outcome (Engine F × World F I V2 M Reg R G W Res)
  loop = run_loop hash_code (perform parts elsewhere) (close_requested parts) (now parts) elapsed

  -- The engine with the duration of the frame.
  abbrev pub timed : F → Engine F → World F I V2 M Reg R G W Res → Engine F
  timed last e w = record e { delta_time = elapsed (now parts w) last }

  -- Frames in sequence, until the engine does not run; the number is that of the frames.
  pub data Plays (objects : Reg → List (Object M)) (stopped : Engine F)
      (final : World F I V2 M Reg R G W Res)
      : ℕ → F → Engine F → World F I V2 M Reg R G W Res → Type 0 where
    stops :
        {last : F} → stopped.is_running ≡ false → Plays objects stopped final 0 last stopped final
    plays :
        {last : F} {j : ℕ} {e : Engine F} {w w' : World F I V2 M Reg R G W Res}
        → Shown parts elsewhere hash_code objects (timed last e w) w w'
        → Plays objects stopped final j
            (now parts w)
            (behind parts elsewhere hash_code (timed last e w) w)
            w'
        → Plays objects stopped final (suc j) last e w

  -- A round of the loop, if `update` returns.
  loop-round :
      (fuel : ℕ) (last : F) (e e' : Engine F) (w w' : World F I V2 M Reg R G W Res)
      → e.is_running ≡ true
      → update hash_code (perform parts elsewhere) (close_requested parts) (timed last e w) w
        ≡ ok (e', w')
      → loop (suc fuel) last e w ≡ loop fuel (now parts w) e' w'
  unfolding run_loop perform
  loop-round fuel last e e' w w' running updated =
      let next : Engine F × World F I V2 M Reg R G W Res
          → Outcome (Engine F × World F I V2 M Reg R G W Res) =
        λ r. loop fuel (now parts w) r.0 r.1 in
      taken e.is_running (ok (e, w)) _ running ∙ ap (λ r. r >>= next) updated

  loop-stopped :
      (fuel : ℕ) (last : F) (e : Engine F) (w : World F I V2 M Reg R G W Res)
      → e.is_running ≡ false
      → loop fuel last e w ≡ ok (e, w)
  unfolding run_loop
  loop-stopped zero last e w h = rw (h) refl
  loop-stopped (suc fuel) last e w h = rw (h) refl

  Idle-none :
      {n : ℕ} {w : World F I V2 M Reg R G W Res}
      → Idle parts elsewhere hash_code Fine n w
      → Idle parts elsewhere hash_code Fine 0 w
  Idle-none h = record {
    fine = h.fine;
    few = h.few;
    room = (omega (arith, h.room.0), omega (arith, h.room.1), omega (arith, h.room.2));
    empty = h.empty;
    ready = h.ready;
  }

  -- The loop has returned with an engine that does not run, behind one to `m` frames, and the
  -- program is between two frames.
  pub record Played (objects : Reg → List (Object M)) (m fuel : ℕ) (last : F) (e : Engine F)
      (w : World F I V2 M Reg R G W Res) : Type 0 where
    pub stopped : Engine F
    pub final : World F I V2 M Reg R G W Res
    pub count : ℕ
    pub some_frame : 0 < count
    pub returns : loop fuel last e w ≡ ok (stopped, final)
    pub halted : stopped.is_running ≡ false
    pub at_most : count ≤ m
    pub frames : Plays objects stopped final count last e w
    pub standing : Standing parts elsewhere hash_code stopped
    pub idle : Idle parts elsewhere hash_code Fine 0 final

  module _ (objects : Reg → List (Object M)) (fuel : ℕ) (last : F) (e : Engine F)
      (w w' : World F I V2 M Reg R G W Res)
      (shown : Shown parts elsewhere hash_code objects (timed last e w) w w')
      (running : e.is_running ≡ true) where
    abbrev e' : Engine F
    e' = behind parts elsewhere hash_code (timed last e w) w

    last_frame :
        (m : ℕ) {n : ℕ}
        → closes parts elsewhere hash_code (timed last e w) w ≡ true
        → Standing parts elsewhere hash_code e
        → Idle parts elsewhere hash_code Fine n w'
        → Played objects (suc m) (suc fuel) last e w
    unfolding get_system
    last_frame m closing standing idle =
        let halted : e'.is_running ≡ false = rw (closing) refl in
        record {
          stopped = e';
          final = w';
          count = 1;
          some_frame = omega arith;
          returns =
              loop-round fuel last e e' w w' running shown.returns
              ∙ loop-stopped fuel (now parts w) e' w' halted;
          halted = halted;
          at_most = omega arith;
          frames = plays shown (stops halted);
          standing = standing;
          idle = Idle-none idle;
        }

    more_frames :
        (m : ℕ)
        → Played objects m fuel (now parts w) e' w'
        → Played objects (suc m) (suc fuel) last e w
    more_frames m rest = record {
      stopped = rest.stopped;
      final = rest.final;
      count = suc rest.count;
      some_frame = omega arith;
      returns = loop-round fuel last e e' w w' running shown.returns ∙ rest.returns;
      halted = rest.halted;
      at_most = omega (arith, rest.at_most);
      frames = plays shown rest.frames;
      standing = rest.standing;
      idle = rest.idle;
    }

    -- GLFW has polled once more.
    polls-Shown : polls w'.window_system.calls ≡ polls w.window_system.calls + 1
    polls-Shown = rw shown.calls (
        polls-append (w.window_system.calls ++ glfw_poll_events ∷ []) _
        ∙ omega (arith, polls-append w.window_system.calls (glfw_poll_events ∷ [])))

  module _ (resources : SystemResources Res) (objects : Reg → List (Object M)) (n : ℕ)
      (quiet : Quiet parts.react) (returns : ScriptsReturn Fine parts.invoke_method)
      (moves : MovesKeep Fine parts.views) (works : Works parts.gfx)
      (pictures : (reg : Reg)
        → Fine reg
        → Pictures parts.glm parts.casts resources (parts.views.renderers reg) (objects reg))
      (bounded : (reg : Reg) → Fine reg → length (objects reg) ≤ n)
      (few : (calls : List GlfwCall) → length (parts.resized calls) ≤ parts.rounds) where
    -- Where a frame of the engine returns, so does the loop of `run`: on an engine that runs, whose
    -- systems stand in their order, over a program between two frames with room for the objects of
    -- `m + 1` frames, if GLFW asks for the close of the window at the latest when it has polled
    -- `m + 1` times more, then fuel for more than `m` frames is enough for the loop to return. It has
    -- gone through one to `m + 1` frames, one after the other, each of which delivers the events and
    -- shows the objects of its scene, and the engine does not run any more behind the last one. The
    -- systems stand in their order still, and the program is between two frames.
    pub run_loop-Played :
        (m fuel limit : ℕ) (last : F) (e : Engine F) (w : World F I V2 M Reg R G W Res)
        → Standing parts elsewhere hash_code e
        → e.is_running ≡ true
        → w.resource_system ≡ resources
        → Idle parts elsewhere hash_code Fine (suc m * n) w
        → ((calls : List GlfwCall)
            → limit ≤ polls calls
            → parts.glfw.should_close calls e.primary_window ≡ true)
        → limit ≤ polls w.window_system.calls + suc m
        → m < fuel
        → Played objects (suc m) fuel last e w
    unfolding get_system
    run_loop-Played m zero limit last e w standing running same idle asks soon enough =
        absurd (omega arith)
    run_loop-Played m (suc fuel) limit last e w standing running same idle asks soon enough =
        let split : suc m * n ≡ n + m * n = grind arith in
        let (w', shown, idle') =
          update-Shows parts elsewhere hash_code Fine resources objects n quiet returns moves works
            pictures bounded few (m * n) (timed last e w) w standing same (rw split at idle) in
        let next = behind parts elsewhere hash_code (timed last e w) w in
        let polled = w.window_system.calls ++ glfw_poll_events ∷ [] in
        let once = polls-append w.window_system.calls (glfw_poll_events ∷ []) in
        elim (Bool-cases (closes parts elsewhere hash_code (timed last e w) w)) [
          | inl closing ↦ last_frame objects fuel last e w w' shown running m closing standing idle'
          | inr goes_on ↦
              let more : 0 < m = grind (arith, asks polled) in
              let same_count : suc (m - 1) ≡ m = omega arith in
              let less : m * n ≡ suc (m - 1) * n = ap (λ x. x * n) (sym same_count) in
              let once_more = polls-Shown objects fuel last e w w' shown running in
              let rest =
                run_loop-Played (m - 1) fuel limit (now parts w) next w' standing
                  (rw (goes_on) running) (shown.same_resources ∙ same)
                  (subst (λ k. Idle parts elsewhere hash_code Fine k w') less idle') asks
                  (omega arith) (omega arith) in
              more_frames objects fuel last e w w' shown running m
                (subst (λ k. Played objects k fuel (now parts w) next w') same_count rest)
        ]
