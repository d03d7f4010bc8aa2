-- ===== src/Audio/Tests.antt =====
-- An audio of five bytes in buffers of three, a wave file, and the end of two sources and an audio.
use rune_old.Maps.{find, assign, upsert, erase, nat_eq}
use rune_old.Base.{
  fault, Outcome, is_some, false, List, ℕ, ◌≡◌, refl, some, [], ◌∷◌, arith, Bytes, codes, ok, ◌⊎◌,
}
use rune_old.Audio.{
  Al, al_initial, mono16, AudioFile, Audio, new_source_data, source_play, shutdown, create_source,
  resume_source, destroy_source,
}
use rune_old.Audio.Stream.{update_stream}
use rune_old.Audio.Cyclic.{Streams, RunsOff, update_stream-Streams}
use rune_old.Audio.Play.{Silent, source_play-Silent}
use rune_old.Audio.History.{
  Operation, creates_source, resumes_source, destroys_source, history, silence, source_alive,
  shutdown-history,
}

-- Floats are numbers here, and two buffers have been processed.
abbrev al : Al ℕ
al = record {
  new_buffers = λ calls n. 5 ∷ 6 ∷ 7 ∷ 8 ∷ [];
  new_source = λ calls. 9;
  buffers_processed = λ calls source. 2;
  unqueued = λ calls source. 5;
  source_state = λ calls source. al_initial;
  zero_f = 0;
  one_f = 1;
}

abbrev tune : Bytes
tune = 10 ∷ 11 ∷ 12 ∷ 13 ∷ 14 ∷ []

update_stream-Streams_example :
    Streams tune 6 3 [] (update_stream al 3 9 mono16 44100 tune 3 [])
    ⊎ RunsOff tune 3 2 3 (update_stream al 3 9 mono16 44100 tune 3 [])
update_stream-Streams_example =
    update_stream-Streams al 3 9 44100 mono16 tune 3 [] (omega arith) (omega arith) (omega arith)

abbrev two_sources : Audio ℕ
two_sources = record {
  sources = (9, new_source_data al 9) ∷ (4, new_source_data al 4) ∷ [];
  audios = 2 ∷ [];
  calls = [];
}

abbrev wave : AudioFile
wave = record { channels = 1; bit_depth = 16; sample_rate = 44100 }

source_play-Silent_example :
    Silent two_sources (source_play al 65536 (λ _. some wave) 9 (codes "a.wav") two_sources)
source_play-Silent_example =
    source_play-Silent al 65536 (λ _. some wave) 9 (codes "a.wav") two_sources (omega arith)
      (λ _. refl)

-- A source is made and started, and another one is made and destroyed.
abbrev evening : List (Operation ℕ)
evening =
    creates_source ∷ resumes_source 9 ∷ creates_source ∷ destroys_source 9 ∷ creates_source ∷ []

result_or : {A : Type 0} → Outcome A → A → A
result_or (ok a) d = a
result_or (fault e) d = d

behind_evening : Audio ℕ
unfolding history result_or
behind_evening = result_or (history al 65536 (λ _. some wave) evening silence) silence

shutdown-history_example :
    ((k : ℕ) → is_some (find k behind_evening.sources) ≡ source_alive k behind_evening.calls)
    × ((s' : Audio ℕ) × (shutdown al 1 behind_evening ≡ ok s')
        × (s'.sources ≡ [])
        × (s'.audios ≡ [])
        × ((k : ℕ) → source_alive k s'.calls ≡ false))
unfolding behind_evening resume_source find create_source assign upsert destroy_source erase
shutdown-history_example =
    shutdown-history al 65536 (λ _. some wave) evening behind_evening 1 refl (omega arith)
      (omega arith)
