-- ===== src/Audio/Stream.antt =====
-- Rune/src/audio/audio.cpp: `update_stream`, which refills the buffers that a source has played, and
-- `update`.
use rune_old.Base.{
  ℕ, zero, suc, ◌+◌, ◌-◌, ◌%◌, ◌^◌, List, [], ◌∷◌, ◌++◌, if◌then◌else◌, ltb, length, Bytes, Outcome,
  ok, ◌>>=◌, ◌>>◌, require, out_of_bounds,
}
use rune_old.Audio.{
  AlCall, al_buffer_data, al_queue_buffers, al_unqueue_buffer, Format, Al, SourceData, Audio,
  read_bytes,
}

-- The difference of two `u64`.
abbrev pub sub64 : ℕ → ℕ → ℕ
sub64 a b = (a + 2 ^ 64 - b) % 2 ^ 64

-- The bytes of the next buffer, and the cursor behind them. The first copy takes the address of the
-- element at the cursor, which has to be in the audio; the second one starts from the front.
unfoldable pub next_data : ℕ → Bytes → ℕ → Outcome (Bytes × ℕ)
next_data size audio_data cursor = do
  let to_copy =
      if ltb (length audio_data) ((cursor + size) % 2 ^ 64)
      then sub64 (length audio_data) cursor
      else size
  require (ltb cursor (length audio_data)) out_of_bounds
  front ← read_bytes audio_data cursor to_copy
  if ltb to_copy size
      then (do back ← read_bytes audio_data 0 (size - to_copy); ok (front ++ back, size - to_copy))
      else ok (front, (cursor + to_copy) % 2 ^ 64)

module _ {F : Type 0} (al : Al F) (size : ℕ) where
  -- The loop over the buffers that were processed, from the cursor and the calls so far.
  unfoldable pub stream_loop :
      ℕ → Format → ℕ → Bytes → ℕ → ℕ → List (AlCall F) → Outcome (ℕ × List (AlCall F))
  stream_loop source f rate audio_data zero cursor calls = ok (cursor, calls)
  stream_loop source f rate audio_data (suc n) cursor calls = do
    let buffer = al.unqueued calls source
    next ← next_data size audio_data cursor
    stream_loop source f rate audio_data n next.1 (
        calls
        ++ al_unqueue_buffer source buffer
          ∷ al_buffer_data buffer f next.0 rate
          ∷ al_queue_buffers source (buffer ∷ [])
          ∷ [])

  unfoldable pub update_stream :
      ℕ → Format → ℕ → Bytes → ℕ → List (AlCall F) → Outcome (ℕ × List (AlCall F))
  update_stream source f rate audio_data cursor calls =
      stream_loop source f rate audio_data (al.buffers_processed calls source) cursor calls

  unfoldable pub update_source :
      ℕ → SourceData → List (AlCall F) → Outcome (SourceData × List (AlCall F))
  update_source source d calls =
      if d.is_playing
      then (do
        r ← update_stream source d.format d.sample_rate d.audio_data d.stream_cursor calls
        ok (record d { stream_cursor = r.0 }, r.1))
      else ok (d, calls)

  -- The loop over the sources.
  unfoldable pub update_sources :
      List (ℕ × SourceData) → List (AlCall F) → Outcome (List (ℕ × SourceData) × List (AlCall F))
  update_sources [] calls = ok ([], calls)
  update_sources ((source, d) ∷ m) calls = do
    r ← update_source source d calls
    rest ← update_sources m r.1
    ok ((source, r.0) ∷ rest.0, rest.1)

  unfoldable pub update : Audio F → Outcome (Audio F)
  update s = do r ← update_sources s.sources s.calls; ok (record s { sources = r.0; calls = r.1 })
