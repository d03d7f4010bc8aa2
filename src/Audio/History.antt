-- ===== src/Audio/History.antt =====
-- Rune/include/rune/audio/audio.hpp: the operations of the audio, one behind the other, and the
-- sources of OpenAL that are alive behind them.
mod Alive
mod Kept
mod Streams
pub use Alive.{Tracks, source_alive}
use rune_old.Base.{
  ℕ, ◌≤◌, ◌≡◌, refl, sym, ap, ◌∙◌, Bool, true, false, ◌||◌, Option, none, some, is_some, List, [],
  ◌∷◌, ◌++◌, if◌then◌else◌, ◌==◌, arith, length, All, Bytes, Outcome, ok, fault, out_of_fuel, ◌>>=◌,
  Ensures, Ensures-bind, Ensures-ok, Ensures-map, Ensures-if, ◌↔◌, Ensures-always, ◌*◌, zero, suc,
  or_fault, missing_key, Bool-cases, inl, inr, ==_iff, Option-cases,
}
use rune_old.Maps.{find, upsert, assign, erase, keys, nat_eq}
use rune_old.Maps.Laws.{find-assign, find-erase}
use rune_old.Audio.{
  Al, AlCall, al_gen_buffers, al_source_play, al_queue_buffers, al_unqueue_buffer, read_bytes,
  stream_buffer_num, al_buffer_data, al_delete_buffer, first_of, al_gen_source, al_delete_source,
  Format, SourceData, Audio, AudioFile, call, insert, remove, create_audio, destroy_audio,
  create_source, destroy_source, set_source_loop, set_source_volume, set_source_pitch,
  set_source_position, set_source_velocity, resume_source, fill_buffers, play_data, source_play,
  source_pause, set_listener_position, wave_format, new_source_data, shutdown, destroy_sources,
  destroy_audios,
}
use rune_old.Audio.Shutdown.{Distinct, DistinctNumbers, shutdown-empties}
use rune_old.Audio.Stream.{
  stream_loop, update_stream, update_source, update_sources, update, next_data,
}
use rune_old.Audio.History.Alive.{
  Quiet, Same, Same-Tracks, Same-call, Same-trans, Tracks, alive_behind, alive_from,
  alive_from-append, assign-Distinct, assign-fresh, call-Tracks, erase-Distinct, erase-fresh,
  insert-DistinctNumbers, remove-DistinctNumbers, remove-absent, remove-fresh, replaced-Tracks,
  rewritten-Tracks, source_alive,
}
use rune_old.Audio.History.Kept.{
  create_audio-Tracks, destroy_audio-Tracks, create_source-Tracks, destroy_source-Tracks,
  resume_source-Tracks, source_play-Tracks,
}
use rune_old.Audio.History.Streams.{update-Tracks}

-- The operations of the header that may change the state.
pub data Operation (F : Type 0) : Type 0 where
  updates : Operation F
  creates_audio : Bytes → Operation F
  destroys_audio : ℕ → Operation F
  creates_source : Operation F
  destroys_source : ℕ → Operation F
  loops_source : ℕ → Bool → Operation F
  sets_volume sets_pitch : ℕ → F → Operation F
  sets_position sets_velocity : ℕ → F → F → F → Operation F
  resumes_source pauses_source : ℕ → Operation F
  plays_source : ℕ → Bytes → Operation F
  sets_listener : F → F → F → Operation F

module _ {F : Type 0} (al : Al F) (size : ℕ) (load : Bytes → Option AudioFile) where
  unfoldable pub step : Operation F → Audio F → Outcome (Audio F)
  step updates s = update al size s
  step (creates_audio filename) s = ok (create_audio al load filename s).1
  step (destroys_audio audio) s = ok (destroy_audio al audio s)
  step creates_source s = ok (create_source al s).1
  step (destroys_source source) s = ok (destroy_source al source s)
  step (loops_source source loop) s = ok (set_source_loop al source loop s)
  step (sets_volume source v) s = ok (set_source_volume al source v s)
  step (sets_pitch source v) s = ok (set_source_pitch al source v s)
  step (sets_position source x y z) s = ok (set_source_position al source x y z s)
  step (sets_velocity source x y z) s = ok (set_source_velocity al source x y z s)
  step (resumes_source source) s = resume_source al source s
  step (pauses_source source) s = ok (source_pause al source s)
  step (plays_source source filename) s = source_play al size load source filename s
  step (sets_listener x y z) s = ok (set_listener_position al x y z s)

  -- The operations in turn, up to the first that faults.
  unfoldable pub history : List (Operation F) → Audio F → Outcome (Audio F)
  unfolding step
  history [] s = ok s
  history (o ∷ os) s = step o s >>= history os

  pub step-Tracks : (o : Operation F) (s : Audio F) → Tracks s → Ensures Tracks (step o s)
  unfolding step
  step-Tracks updates s t = update-Tracks al size s t
  step-Tracks (creates_audio filename) s t = create_audio-Tracks al load filename s t
  step-Tracks (destroys_audio audio) s t = destroy_audio-Tracks al audio s t
  step-Tracks creates_source s t = create_source-Tracks al s t
  step-Tracks (destroys_source source) s t = destroy_source-Tracks al source s t
  step-Tracks (loops_source source loop) s t = call-Tracks _ s (λ k b. refl) t
  step-Tracks (sets_volume source v) s t = call-Tracks _ s (λ k b. refl) t
  step-Tracks (sets_pitch source v) s t = call-Tracks _ s (λ k b. refl) t
  step-Tracks (sets_position source x y z) s t = call-Tracks _ s (λ k b. refl) t
  step-Tracks (sets_velocity source x y z) s t = call-Tracks _ s (λ k b. refl) t
  step-Tracks (resumes_source source) s t = resume_source-Tracks al source s t
  step-Tracks (pauses_source source) s t = call-Tracks _ s (λ k b. refl) t
  step-Tracks (plays_source source filename) s t =
      source_play-Tracks al size load source filename s t
  step-Tracks (sets_listener x y z) s t = call-Tracks _ s (λ k b. refl) t

  history-Tracks :
      (os : List (Operation F)) (s : Audio F) → Tracks s → Ensures Tracks (history os s)
  unfolding history
  history-Tracks [] s t = t
  history-Tracks (o ∷ os) s t =
      Ensures-bind Tracks Tracks (step o s) (history os) (step-Tracks o s t)
        (λ s' t'. history-Tracks os s' t')

-- The state before anything was created, behind the calls that made the device ready.
abbrev pub silence : {F : Type 0} → Audio F
silence = record { sources = []; audios = []; calls = [] }

silence-Tracks : {F : Type 0} → Tracks {F = F} silence
unfolding find
silence-Tracks = record { distinct = tt; distinct_audios = tt; tracked = λ k. refl }

module _ {F : Type 0} (al : Al F) where
  destroy_sources-Tracks :
      (n : ℕ) (s : Audio F) → Tracks s → Ensures Tracks (destroy_sources al n s)
  unfolding destroy_sources
  destroy_sources-Tracks zero s t =
      elim s.sources as (λ m. Ensures Tracks (elim m [ [] ↦ ok s | p ∷ m ↦ fault out_of_fuel ])) [
        | [] ↦ t
        | p ∷ m ↦ tt
      ]
  destroy_sources-Tracks (suc n) s t =
      elim s.sources
        as (λ m.
          Ensures Tracks
            (elim m [ [] ↦ ok s | p ∷ m ↦ destroy_sources al n (destroy_source al p.0 s) ])) [
              | [] ↦ t
              | p ∷ m ↦
                  destroy_sources-Tracks n (destroy_source al p.0 s)
                    (destroy_source-Tracks al p.0 s t)
            ]

  destroy_audios-Tracks : (n : ℕ) (s : Audio F) → Tracks s → Ensures Tracks (destroy_audios al n s)
  unfolding destroy_audios
  destroy_audios-Tracks zero s t =
      elim s.audios as (λ m. Ensures Tracks (elim m [ [] ↦ ok s | p ∷ m ↦ fault out_of_fuel ])) [
        | [] ↦ t
        | p ∷ m ↦ tt
      ]
  destroy_audios-Tracks (suc n) s t =
      elim s.audios
        as (λ m.
          Ensures Tracks
            (elim m [ [] ↦ ok s | p ∷ m ↦ destroy_audios al n (destroy_audio al p s) ])) [
              | [] ↦ t
              | p ∷ m ↦
                  destroy_audios-Tracks n (destroy_audio al p s) (destroy_audio-Tracks al p s t)
            ]

  shutdown-Tracks : (n : ℕ) (s : Audio F) → Tracks s → Ensures Tracks (shutdown al n s)
  unfolding shutdown
  shutdown-Tracks n s t =
      Ensures-bind Tracks Tracks (destroy_sources al n s) (destroy_audios al n)
        (destroy_sources-Tracks n s t) (λ s' t'. destroy_audios-Tracks n s' t')

-- Behind any operations that return, in any order and with any arguments, the table of sources has
-- an entry for each source that OpenAL has generated and not deleted, and for no other. `shutdown`
-- returns then, with fuel for the longer of the two tables: both are empty, and no source is left in
-- OpenAL.
pub shutdown-history :
    {F : Type 0} (al : Al F) (size : ℕ) (load : Bytes → Option AudioFile) (os : List (Operation F))
    (s : Audio F) (fuel : ℕ)
    → history al size load os silence ≡ ok s
    → length s.sources ≤ fuel
    → length s.audios ≤ fuel
    → ((k : ℕ) → is_some (find k s.sources) ≡ source_alive k s.calls)
      × ((s' : Audio F) × (shutdown al fuel s ≡ ok s')
          × (s'.sources ≡ [])
          × (s'.audios ≡ [])
          × ((k : ℕ) → source_alive k s'.calls ≡ false))
unfolding find
shutdown-history al size load os s fuel run h k =
    let t = Ensures-ok Tracks (history-Tracks al size load os silence silence-Tracks) run in
    let ends = shutdown-empties al fuel s h k t.distinct t.distinct_audios in
    let t' = Ensures-ok Tracks (shutdown-Tracks al fuel s t) ends in
    (t.tracked, (_, ends, refl, refl, λ j. sym (t'.tracked j)))
