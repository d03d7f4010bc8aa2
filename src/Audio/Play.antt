-- ===== src/Audio/Play.antt =====
-- Playing a file.
use rune_old.Base.{
  ℕ, ◌+◌, ◌*◌, ◌<◌, ◌≡◌, refl, inl, inr, false, Option, none, some, Option-cases, List, [], ◌∷◌,
  leb, arith, length, Bytes, Outcome, ok, fault, ◌>>=◌, or_fault, bind-ap, out_of_bounds,
  missing_key,
}
use rune_old.Audio.{
  Al, AlCall, al_gen_buffers, AudioFile, Format, SourceData, Audio, call, read_bytes,
  stream_buffer_num, wave_format, fill_buffers, play_data, source_play,
}
use rune_old.Maps.{find, nat_eq}

-- What playing a file can come to.
pub data Silent {F : Type 0} (s : Audio F) : Outcome (Audio F) → Type 0 where
  unchanged : Silent s (ok s)
  buffer_leaked : (names : List ℕ) → Silent s (ok (call (al_gen_buffers names) s))
  unknown_source : Silent s (fault missing_key)
  reads_past_end : Silent s (fault out_of_bounds)

nothing_to_read : (i size : ℕ) → 0 < size → read_bytes [] (i * size) size ≡ fault out_of_bounds
nothing_to_read i size positive =
    let past : leb (i * size + size) 0 ≡ false = ground arith in rw (past) refl

module _ {F : Type 0} (al : Al F) (size : ℕ) (positive : 0 < size)
    (four : (calls : List (AlCall F))
      → length (al.new_buffers calls stream_buffer_num) ≡ stream_buffer_num) where
  fill_buffers-empty :
      (f : Format) (rate : ℕ) (names : List ℕ) (s : Audio F)
      → length names ≡ stream_buffer_num
      → fill_buffers al size f rate [] names 0 s ≡ fault out_of_bounds
  unfolding fill_buffers
  fill_buffers-empty f rate [] s h = absurd (omega arith)
  fill_buffers-empty f rate (b ∷ bs) s h = rw (nothing_to_read 0 size positive) refl

  play_data-empty :
      (source rate : ℕ) (f : Format) (s : Audio F)
      → play_data al size source f rate [] s
        ≡ (or_fault (find source s.sources) missing_key >>= λ d. fault out_of_bounds)
  unfolding play_data
  play_data-empty source rate f s = bind-ap (or_fault (find source s.sources) missing_key) _ _ (λ d.
      rw
        (fill_buffers-empty f rate (al.new_buffers s.calls stream_buffer_num)
          (call (al_gen_buffers (al.new_buffers s.calls stream_buffer_num)) s) (four s.calls))
        refl)

or_fault-Silent :
    {F : Type 0} (s : Audio F) (o : Option SourceData)
    → Silent s (or_fault o missing_key >>= λ d. fault out_of_bounds)
or_fault-Silent s none = unknown_source
or_fault-Silent s (some d) = reads_past_end

-- No file is ever played: where OpenAL generates as many buffers as it is asked for and a buffer is
-- not empty, `source_play` either leaves everything as it is, or generates a buffer that nothing
-- refers to and stops at the format, or finds no such source, or reads the data of the file out of
-- bounds, since nothing was saved to it.
pub source_play-Silent :
    {F : Type 0} (al : Al F) (size : ℕ) (load : Bytes → Option AudioFile) (source : ℕ)
    (filename : Bytes) (s : Audio F)
    → 0 < size
    → ((calls : List (AlCall F))
        → length (al.new_buffers calls stream_buffer_num) ≡ stream_buffer_num)
    → Silent s (source_play al size load source filename s)
unfolding source_play
source_play-Silent al size load source filename s positive four =
    elim (Option-cases (load filename)) [
      | inl e ↦ rw (source_play, e) unchanged
      | inr (file, e) ↦ elim (Option-cases (wave_format file)) [
        | inl g ↦ rw (source_play, e, g) (buffer_leaked (al.new_buffers s.calls 1))
        | inr (f, g) ↦
            rw
              (
                source_play,
                e,
                g,
                play_data-empty al size positive four source file.sample_rate f
                    (call (al_gen_buffers (al.new_buffers s.calls 1)) s),
              )
              (or_fault-Silent s (find source s.sources))
      ]
    ]
