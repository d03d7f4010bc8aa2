-- ===== src/Audio/History/Kept.antt =====
-- The operations on the audio keep the table of sources true to OpenAL.
use rune_old.Base.{
  ℕ, ◌≡◌, refl, Bool, true, false, Option, none, some, is_some, List, [], ◌∷◌, if◌then◌else◌, ◌==◌,
  Bytes, Ensures, Ensures-bind, Ensures-map, Ensures-always, ◌*◌, suc, inl, inr, Option-cases,
}
use rune_old.Maps.{find, assign, nat_eq}
use rune_old.Maps.Laws.{find-assign, find-erase}
use rune_old.Audio.{
  Al, al_gen_buffers, al_source_play, al_queue_buffers, read_bytes, stream_buffer_num,
  al_buffer_data, al_delete_buffer, first_of, al_gen_source, al_delete_source, Format, SourceData,
  Audio, AudioFile, call, insert, create_audio, destroy_audio, create_source, destroy_source,
  set_source_volume, set_source_pitch, set_source_position, set_source_velocity, resume_source,
  fill_buffers, play_data, source_play, wave_format, new_source_data,
}
use rune_old.Audio.History.Alive.{
  Same, Same-call, Same-trans, Tracks, alive_from-append, assign-Distinct, call-Tracks,
  erase-Distinct, insert-DistinctNumbers, remove-DistinctNumbers, replaced-Tracks, rewritten-Tracks,
  source_alive,
}

module _ {F : Type 0} (al : Al F) where
  pub create_audio-Tracks :
      (load : Bytes → Option AudioFile) (filename : Bytes) (s : Audio F)
      → Tracks s
      → Tracks (create_audio al load filename s).1
  unfolding create_audio
  create_audio-Tracks load filename s t = elim (Option-cases (load filename)) [
    | inl e ↦ rw (create_audio, e) t
    | inr (file, e) ↦
        let names = al.new_buffers s.calls 1 in
        let generated = call (al_gen_buffers names) s in
        let t' = call-Tracks (al_gen_buffers names) s (λ k b. refl) t in
        elim (Option-cases (wave_format file)) [
          | inl g ↦ rw (create_audio, e, g) t'
          | inr (f, g) ↦
              let c = al_buffer_data (first_of al names) f [] file.sample_rate in
              rw (create_audio, e, g)
                (stored (first_of al names) (call c generated)
                  (call-Tracks c generated (λ k b. refl) t'))
        ]
  ]
    where
      stored :
          (audio : ℕ) (s' : Audio F)
          → Tracks s'
          → Tracks (record s' { audios = insert audio s'.audios })
      stored audio s' t' = record {
        distinct = t'.distinct;
        distinct_audios = insert-DistinctNumbers audio s'.audios t'.distinct_audios;
        tracked = t'.tracked;
      }

  pub destroy_audio-Tracks :
      (audio : ℕ) (s : Audio F) → Tracks s → Tracks (destroy_audio al audio s)
  unfolding destroy_audio
  destroy_audio-Tracks audio s t =
      let called = call-Tracks (al_delete_buffer audio) s (λ k b. refl) t in
      record {
        distinct = t.distinct;
        distinct_audios = remove-DistinctNumbers audio s.audios t.distinct_audios;
        tracked = called.tracked;
      }

  pub generated-Tracks :
      (k : ℕ) (d : SourceData) (s : Audio F)
      → Tracks s
      → Tracks (record (call (al_gen_source k) s) { sources = assign k d s.sources })
  generated-Tracks k d s t = record {
    distinct = assign-Distinct k d s.sources t.distinct;
    distinct_audios = t.distinct_audios;
    tracked = λ j.
        rw (find-assign k j d s.sources, alive_from-append j false s.calls (al_gen_source k ∷ []))
          (chosen (k == j) (find j s.sources) (source_alive j s.calls) (t.tracked j));
  }
    where
      chosen :
          (b : Bool) (o : Option SourceData) (a : Bool)
          → is_some o ≡ a
          → is_some (if b then some d else o) ≡ (if b then true else a)
      chosen true o a h = refl
      chosen false o a h = h

  pub destroy_source-Tracks : (k : ℕ) (s : Audio F) → Tracks s → Tracks (destroy_source al k s)
  unfolding destroy_source
  destroy_source-Tracks k s t = record {
    distinct = erase-Distinct k s.sources t.distinct;
    distinct_audios = t.distinct_audios;
    tracked = λ j.
        rw (find-erase k j s.sources, alive_from-append j false s.calls (al_delete_source k ∷ []))
          (chosen (k == j) (find j s.sources) (source_alive j s.calls) (t.tracked j));
  }
    where
      chosen :
          (b : Bool) (o : Option SourceData) (a : Bool)
          → is_some o ≡ a
          → is_some (if b then none else o) ≡ (if b then false else a)
      chosen true o a h = refl
      chosen false o a h = h

  pub create_source-Tracks : (s : Audio F) → Tracks s → Tracks (create_source al s).1
  unfolding create_source
  create_source-Tracks s t =
      let k = al.new_source s.calls in
      let z = al.zero_f in
      let s0 : Audio F = record (call (al_gen_source k) s) {
        sources = assign k (new_source_data al k) s.sources;
      } in
      let s1 = set_source_pitch al k al.one_f s0 in
      let s2 = set_source_volume al k al.one_f s1 in
      let s3 = set_source_position al k z z z s2 in
      let s4 = set_source_velocity al k z z z s3 in
      call-Tracks _ s4 (λ j b. refl)
        (call-Tracks _ s3 (λ j b. refl)
          (call-Tracks _ s2 (λ j b. refl)
            (call-Tracks _ s1 (λ j b. refl)
              (call-Tracks _ s0 (λ j b. refl) (generated-Tracks k (new_source_data al k) s t)))))

  pub resume_source-Tracks :
      (k : ℕ) (s : Audio F) → Tracks s → Ensures Tracks (resume_source al k s)
  unfolding resume_source
  resume_source-Tracks k s t = elim (Option-cases (find k s.sources)) [
    | inl e ↦ rw (resume_source, e) tt
    | inr (d, e) ↦
        rw (resume_source, e)
          (rewritten-Tracks k d (record d { is_playing = true }) (call (al_source_play k) s) e
            (call-Tracks (al_source_play k) s (λ j b. refl) t))
  ]

  pub fill_buffers-Same :
      (size : ℕ) (f : Format) (rate : ℕ) (audio_data : Bytes) (names : List ℕ) (i : ℕ) (s : Audio F)
      → Ensures (Same s) (fill_buffers al size f rate audio_data names i s)
  unfolding fill_buffers
  fill_buffers-Same size f rate audio_data [] i s = record {
    same_sources = refl;
    same_audios = refl;
    same_alive = λ k. refl;
  }
  fill_buffers-Same size f rate audio_data (b ∷ bs) i s =
      Ensures-bind (λ _. Unit {0}) (Same s) (read_bytes audio_data (i * size) size) _
        (Ensures-always (read_bytes audio_data (i * size) size))
        (λ data_of _.
          let s' = call (al_buffer_data b f data_of rate) s in
          Ensures-map (Same s') (Same s) (fill_buffers al size f rate audio_data bs (suc i) s')
            (λ u h. Same-trans s s' u (Same-call _ s (λ k b. refl)) h)
            (fill_buffers-Same size f rate audio_data bs (suc i) s'))

  pub play_data-Tracks :
      (size source : ℕ) (f : Format) (rate : ℕ) (audio_data : Bytes) (s : Audio F)
      → Tracks s
      → Ensures Tracks (play_data al size source f rate audio_data s)
  unfolding play_data
  play_data-Tracks size source f rate audio_data s t = elim (Option-cases (find source s.sources)) [
    | inl e ↦ rw (play_data, e) tt
    | inr (d, e) ↦
        let names = al.new_buffers s.calls stream_buffer_num in
        let generated = call (al_gen_buffers names) s in
        rw (play_data, e)
          (Ensures-bind (Same generated) Tracks
            (fill_buffers al size f rate audio_data names 0 generated) _
            (fill_buffers-Same size f rate audio_data names 0 generated)
            (λ s' h.
              let queued = call (al_queue_buffers source names) s' in
              let before = Same-trans s generated s' (Same-call _ s (λ j b. refl)) h in
              let behind = Same-trans s s' queued before (Same-call _ s' (λ j b. refl)) in
              resume_source-Tracks source _ (replaced-Tracks source d _ s queued e behind t)))
  ]

  pub source_play-Tracks :
      (size : ℕ) (load : Bytes → Option AudioFile) (source : ℕ) (filename : Bytes) (s : Audio F)
      → Tracks s
      → Ensures Tracks (source_play al size load source filename s)
  unfolding source_play
  source_play-Tracks size load source filename s t = elim (Option-cases (load filename)) [
    | inl e ↦ rw (source_play, e) t
    | inr (file, e) ↦
        let names = al.new_buffers s.calls 1 in
        let t' = call-Tracks (al_gen_buffers names) s (λ j b. refl) t in
        elim (Option-cases (wave_format file)) [
          | inl g ↦ rw (source_play, e, g) t'
          | inr (f, g) ↦
              rw (source_play, e, g)
                (play_data-Tracks size source f file.sample_rate [] (call (al_gen_buffers names) s)
                  t')
        ]
  ]
