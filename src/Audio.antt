-- ===== src/Audio.antt =====
-- Rune/src/audio/audio.cpp and its header. OpenAL is a parameter, which answers by the calls made so
-- far; floats are a parameter, and so is the reading of an audio file.
pub mod Stream
pub mod Cyclic
pub mod Play
pub mod Shutdown
pub mod History
pub mod Device
pub mod Errors
mod Tests
use rune_old.Base.{
  ℕ, zero, suc, ◌+◌, ◌*◌, Bool, true, false, not, ◌&&◌, Option, none, some, List, [], ◌∷◌, ◌++◌,
  if◌then◌else◌, ◌==◌, leb, length, take, drop, Bytes, Outcome, ok, fault, ◌>>=◌, ◌>>◌, or_fault,
  out_of_bounds, missing_key, out_of_fuel,
}
use rune_old.Maps.{find, assign, erase, nat_eq}

-- `ALenum format`, which is 0 before it is set.
pub data Format : Type 0 where
  no_format mono8 mono16 stereo8 stereo16 : Format

-- The properties of a source and of the listener.
pub data Property : Type 0 where
  looping gain pitch position velocity : Property

-- The calls of OpenAL that change its state, the objects that it generates among the arguments.
pub data AlCall (F : Type 0) : Type 0 where
  al_gen_buffers : List ℕ → AlCall F
  al_delete_buffer : ℕ → AlCall F
  al_gen_source : ℕ → AlCall F
  al_delete_source : ℕ → AlCall F
  al_buffer_data : ℕ → Format → Bytes → ℕ → AlCall F
  al_queue_buffers : ℕ → List ℕ → AlCall F
  al_unqueue_buffer : ℕ → ℕ → AlCall F
  al_source_play : ℕ → AlCall F
  al_source_pause : ℕ → AlCall F
  al_source_i : ℕ → Property → Bool → AlCall F
  al_source_f : ℕ → Property → F → AlCall F
  al_source_3f : ℕ → Property → F → F → F → AlCall F
  al_listener_3f : Property → F → F → F → AlCall F

-- The answers to a question for the state of a source.
pub data AlState : Type 0 where
  al_initial al_playing al_paused al_stopped al_other : AlState

pub data SourceState : Type 0 where
  initial playing paused stopped : SourceState

-- What OpenAL answers after the calls so far, and two floats.
pub record Al (F : Type 0) : Type 0 where
  pub new_buffers : List (AlCall F) → ℕ → List ℕ
  pub new_source : List (AlCall F) → ℕ
  pub buffers_processed : List (AlCall F) → ℕ → ℕ
  pub unqueued : List (AlCall F) → ℕ → ℕ
  pub source_state : List (AlCall F) → ℕ → AlState
  pub zero_f : F
  pub one_f : F

-- What `AudioFile` says of a file.
pub record AudioFile : Type 0 where
  pub channels : ℕ
  pub bit_depth : ℕ
  pub sample_rate : ℕ

pub record SourceData : Type 0 where
  pub source_id : ℕ
  pub is_playing : Bool
  pub sample_rate : ℕ
  pub format : Format
  pub audio_data : Bytes
  pub is_streamed : Bool
  pub stream_cursor : ℕ
  pub buffers : List ℕ

pub record Audio (F : Type 0) : Type 0 where
  pub sources : List (ℕ × SourceData)
  pub audios : List ℕ
  pub calls : List (AlCall F)

abbrev pub stream_buffer_num : ℕ
stream_buffer_num = 4

abbrev pub stream_buffer_size : ℕ
stream_buffer_size = 65536

abbrev pub call : {F : Type 0} → AlCall F → Audio F → Audio F
call c s = record s { calls = s.calls ++ c ∷ [] }

-- The `n` bytes from index `at`.
abbrev pub read_bytes : Bytes → ℕ → ℕ → Outcome Bytes
read_bytes xs at n =
    if leb (at + n) (length xs) then ok (take n (drop at xs)) else fault out_of_bounds

-- The chain of tests of `create_audio` and `source_play`.
unfoldable pub wave_format : AudioFile → Option Format
wave_format f =
    if f.channels == 1 && f.bit_depth == 8
    then some mono8
    else if f.channels == 1 && f.bit_depth == 16
    then some mono16
    else if f.channels == 2 && f.bit_depth == 8
    then some stereo8
    else if f.channels == 2 && f.bit_depth == 16
    then some stereo16
    else none

abbrev pub remove : ℕ → List ℕ → List ℕ
remove k [] = []
remove k (x ∷ xs) = if x == k then remove k xs else x ∷ remove k xs

-- `insert` of a set
abbrev pub insert : ℕ → List ℕ → List ℕ
insert k xs = k ∷ remove k xs

module _ {F : Type 0} (al : Al F) where
  -- A buffer of `alGenBuffers` is the first of the names it returns.
  abbrev pub first_of : List ℕ → ℕ
  first_of [] = 0
  first_of (b ∷ bs) = b

  -- Loading, and the data that stays empty. `0` where it fails.
  unfoldable pub create_audio : (Bytes → Option AudioFile) → Bytes → Audio F → ℕ × Audio F
  create_audio load filename s = elim (load filename) [
    | none ↦ (0, s)
    | some file ↦
        let names = al.new_buffers s.calls 1 in
        let s' = call (al_gen_buffers names) s in
        elim (wave_format file) [
          | none ↦ (0, s')
          | some f ↦
              let buffer = first_of names in
              let filled = call (al_buffer_data buffer f [] file.sample_rate) s' in
              (buffer, record filled { audios = insert buffer s.audios })
        ]
  ]

  unfoldable pub destroy_audio : ℕ → Audio F → Audio F
  destroy_audio audio s = record (call (al_delete_buffer audio) s) {
    audios = remove audio s.audios;
  }

  abbrev pub set_source_loop : ℕ → Bool → Audio F → Audio F
  set_source_loop source loop = call (al_source_i source looping loop)

  abbrev pub set_source_volume : ℕ → F → Audio F → Audio F
  set_source_volume source volume = call (al_source_f source gain volume)

  abbrev pub set_source_pitch : ℕ → F → Audio F → Audio F
  set_source_pitch source v = call (al_source_f source pitch v)

  abbrev pub set_source_position : ℕ → F → F → F → Audio F → Audio F
  set_source_position source x y z = call (al_source_3f source position x y z)

  abbrev pub set_source_velocity : ℕ → F → F → F → Audio F → Audio F
  set_source_velocity source x y z = call (al_source_3f source velocity x y z)

  abbrev pub new_source_data : ℕ → SourceData
  new_source_data source = record {
    source_id = source;
    is_playing = false;
    sample_rate = 0;
    format = no_format;
    audio_data = [];
    is_streamed = false;
    stream_cursor = 0;
    buffers = [];
  }

  unfoldable pub create_source : Audio F → ℕ × Audio F
  create_source s =
      let source = al.new_source s.calls in
      let z = al.zero_f in
      let set_up = set_source_loop source false (
        set_source_velocity source z z z (
          set_source_position source z z z (
            set_source_volume source al.one_f
              (set_source_pitch source al.one_f (call (al_gen_source source) s))))) in
      (source, record set_up { sources = assign source (new_source_data source) s.sources })

  unfoldable pub destroy_source : ℕ → Audio F → Audio F
  destroy_source source s = record (call (al_delete_source source) s) {
    sources = erase source s.sources;
  }

  -- An unknown state becomes the first one.
  unfoldable pub get_source_state : ℕ → Audio F → SourceState
  get_source_state source s = elim (al.source_state s.calls source) [
    | al_initial ↦ initial
    | al_playing ↦ playing
    | al_paused ↦ paused
    | al_stopped ↦ stopped
    | al_other ↦ initial
  ]

  -- `source_play(source)`
  unfoldable pub resume_source : ℕ → Audio F → Outcome (Audio F)
  resume_source source s = do
    d ← or_fault (find source s.sources) missing_key
    ok (record (call (al_source_play source) s) {
      sources = assign source (record d { is_playing = true }) s.sources;
    })

  -- The loop that fills the buffers from the `i`th on.
  unfoldable pub fill_buffers : ℕ → Format → ℕ → Bytes → List ℕ → ℕ → Audio F → Outcome (Audio F)
  fill_buffers size f rate audio_data [] i s = ok s
  fill_buffers size f rate audio_data (b ∷ bs) i s = do
    data_of ← read_bytes audio_data (i * size) size
    fill_buffers size f rate audio_data bs (suc i) (call (al_buffer_data b f data_of rate) s)

  -- `source_play(source, filename)`, behind the test of the format. The data of the file is
  -- `audio_data`, to which nothing was saved.
  unfoldable pub play_data : ℕ → ℕ → Format → ℕ → Bytes → Audio F → Outcome (Audio F)
  play_data size source f rate audio_data s = do
    d ← or_fault (find source s.sources) missing_key
    let names = al.new_buffers s.calls stream_buffer_num
    s' ← fill_buffers size f rate audio_data names 0 (call (al_gen_buffers names) s)
    let d' : SourceData = record d {
      sample_rate = rate;
      format = f;
      audio_data = audio_data;
      buffers = names;
      stream_cursor = stream_buffer_num * size;
    }
    resume_source source
        (record (call (al_queue_buffers source names) s') { sources = assign source d' s.sources })

  -- `source_play(source, filename)`
  unfoldable pub source_play :
      ℕ → (Bytes → Option AudioFile) → ℕ → Bytes → Audio F → Outcome (Audio F)
  source_play size load source filename s = elim (load filename) [
    | none ↦ ok s
    | some file ↦
        let s' = call (al_gen_buffers (al.new_buffers s.calls 1)) s in
        elim (wave_format file) [
          | none ↦ ok s'
          | some f ↦ play_data size source f file.sample_rate [] s'
        ]
  ]

  abbrev pub source_pause : ℕ → Audio F → Audio F
  source_pause source = call (al_source_pause source)

  abbrev pub set_listener_position : F → F → F → Audio F → Audio F
  set_listener_position x y z = call (al_listener_3f position x y z)

  -- The first loop of `shutdown`.
  unfoldable pub destroy_sources : ℕ → Audio F → Outcome (Audio F)
  destroy_sources zero s = elim s.sources [ [] ↦ ok s | p ∷ m ↦ fault out_of_fuel ]
  destroy_sources (suc n) s = elim s.sources [
    | [] ↦ ok s
    | p ∷ m ↦ destroy_sources n (destroy_source p.0 s)
  ]

  -- The second one.
  unfoldable pub destroy_audios : ℕ → Audio F → Outcome (Audio F)
  destroy_audios zero s = elim s.audios [ [] ↦ ok s | x ∷ a ↦ fault out_of_fuel ]
  destroy_audios (suc n) s = elim s.audios [
    | [] ↦ ok s
    | x ∷ a ↦ destroy_audios n (destroy_audio x s)
  ]

  -- The closing of the device is in Audio/Device.
  unfoldable pub shutdown : ℕ → Audio F → Outcome (Audio F)
  shutdown fuel s = destroy_sources fuel s >>= destroy_audios fuel
