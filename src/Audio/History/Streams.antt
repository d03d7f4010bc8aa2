-- ===== src/Audio/History/Streams.antt =====
-- `update` of the audio keeps the table of sources true to OpenAL.
use rune_old.Base.{
  ℕ, ◌≡◌, refl, sym, ap, ◌∙◌, Bool, true, false, is_some, List, [], ◌∷◌, ◌++◌, if◌then◌else◌, ◌==◌,
  arith, All, Bytes, Ensures, Ensures-bind, Ensures-map, Ensures-if, ◌↔◌, Ensures-always, zero, suc,
}
use rune_old.Maps.{find, keys, nat_eq}
use rune_old.Audio.{
  Al, AlCall, al_queue_buffers, al_unqueue_buffer, al_buffer_data, Format, SourceData, Audio,
}
use rune_old.Audio.Shutdown.{Distinct, DistinctNumbers}
use rune_old.Audio.Stream.{
  stream_loop, update_stream, update_source, update_sources, update, next_data,
}
use rune_old.Audio.History.Alive.{Tracks, alive_from-append, source_alive}

-- What the loops of `update` leave as it is.
abbrev pub KeepsAlive : {F : Type 0} → List (AlCall F) → List (AlCall F) → Type 0
KeepsAlive calls calls' = (k : ℕ) → source_alive k calls' ≡ source_alive k calls

module _ {F : Type 0} (al : Al F) (size : ℕ) where
  pub stream_loop-KeepsAlive :
      (source : ℕ) (f : Format) (rate : ℕ) (audio_data : Bytes) (n cursor : ℕ)
      (calls : List (AlCall F))
      → Ensures
          (λ r. KeepsAlive calls r.1)
          (stream_loop al size source f rate audio_data n cursor calls)
  unfolding stream_loop
  stream_loop-KeepsAlive source f rate audio_data zero cursor calls = λ k. refl
  stream_loop-KeepsAlive source f rate audio_data (suc n) cursor calls =
      Ensures-bind (λ _. Unit {0}) (λ r. KeepsAlive calls r.1) (next_data size audio_data cursor) _
        (Ensures-always (next_data size audio_data cursor))
        (λ next _.
          let refilled : List (AlCall F) =
            al_unqueue_buffer source (al.unqueued calls source)
            ∷ al_buffer_data (al.unqueued calls source) f next.0 rate
            ∷ al_queue_buffers source (al.unqueued calls source ∷ [])
            ∷ [] in
          let rest = stream_loop al size source f rate audio_data n next.1 (calls ++ refilled) in
          Ensures-map (λ r. KeepsAlive (calls ++ refilled) r.1) (λ r. KeepsAlive calls r.1) rest
            (λ r h k. h k ∙ alive_from-append k false calls refilled)
            (stream_loop-KeepsAlive source f rate audio_data n next.1 (calls ++ refilled)))

  pub update_source-KeepsAlive :
      (source : ℕ) (d : SourceData) (calls : List (AlCall F))
      → Ensures (λ r. KeepsAlive calls r.1) (update_source al size source d calls)
  unfolding update_source update_stream
  update_source-KeepsAlive source d calls =
      Ensures-if (λ (r : _ × _). KeepsAlive calls r.1) d.is_playing _ _
        (Ensures-bind (λ (r : _ × _). KeepsAlive calls r.1) (λ (r : _ × _). KeepsAlive calls r.1) _
          _
          (stream_loop-KeepsAlive source d.format d.sample_rate d.audio_data
            (al.buffers_processed calls source) d.stream_cursor calls)
          (λ r h. h))
        (λ k. refl)

  -- The sources keep their names.
  pub update_sources-keys :
      (m : List (ℕ × SourceData)) (calls : List (AlCall F))
      → Ensures (λ r. (keys r.0 ≡ keys m) × KeepsAlive calls r.1) (update_sources al size m calls)
  unfolding update_sources keys
  update_sources-keys [] calls = (refl, λ k. refl)
  update_sources-keys ((source, d) ∷ m) calls =
      let Keeps = λ (r : List (ℕ × SourceData) × List (AlCall F)).
        (keys r.0 ≡ source ∷ keys m) × KeepsAlive calls r.1 in
      Ensures-bind (λ r. KeepsAlive calls r.1) Keeps (update_source al size source d calls) _
        (update_source-KeepsAlive source d calls)
        (λ r h.
          Ensures-bind (λ rest. (keys rest.0 ≡ keys m) × KeepsAlive r.1 rest.1) Keeps
            (update_sources al size m r.1) _ (update_sources-keys m r.1)
            (λ rest g. (ap (◌∷◌ source) g.0, λ k. g.1 k ∙ h k)))

pub stands : ℕ → List ℕ → Bool
stands k [] = false
stands k (j ∷ js) = if j == k then true else stands k js

pub find-stands : {V : Type 0} (k : ℕ) (m : List (ℕ × V)) → is_some (find k m) ≡ stands k (keys m)
unfolding find keys stands
find-stands k [] = refl
find-stands k ((j, v) ∷ m) = ground (arith, find-stands k m)

pub fresh-keys :
    {V : Type 0} (k : ℕ) (m : List (ℕ × V))
    → All (λ q. (q.0 == k) ≡ false) m ↔ All (λ y. (y == k) ≡ false) (keys m)
unfolding keys
fresh-keys k [] = (λ h. h, λ h. h)
fresh-keys k ((j, v) ∷ m) =
    let (on, back) = fresh-keys k m in (λ h. (h.0, on h.1), λ h. (h.0, back h.1))

pub Distinct-keys : {V : Type 0} (m : List (ℕ × V)) → Distinct m ↔ DistinctNumbers (keys m)
unfolding keys
Distinct-keys [] = (λ h. h, λ h. h)
Distinct-keys ((j, v) ∷ m) =
    let (on, back) = Distinct-keys m in
    (λ h. ((fresh-keys j m).0 h.0, on h.1), λ h. ((fresh-keys j m).1 h.0, back h.1))

pub update-Tracks :
    {F : Type 0} (al : Al F) (size : ℕ) (s : Audio F) → Tracks s → Ensures Tracks (update al size s)
unfolding update
update-Tracks al size s t =
    Ensures-bind (λ r. (keys r.0 ≡ keys s.sources) × KeepsAlive s.calls r.1) Tracks
      (update_sources al size s.sources s.calls) _ (update_sources-keys al size s.sources s.calls)
      (λ r h. record {
        distinct = (Distinct-keys r.0).1 (rw h.0 ((Distinct-keys s.sources).0 t.distinct));
        distinct_audios = t.distinct_audios;
        tracked = λ k.
            find-stands k r.0
            ∙ ap (stands k) h.0
            ∙ sym (find-stands k s.sources)
            ∙ t.tracked k
            ∙ sym (h.1 k);
      })
