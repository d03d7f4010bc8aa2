-- ===== src/Audio/Device.antt =====
-- Rune/src/audio/audio.cpp: the opening of the device and of its context in `initialise`, and their
-- end in `shutdown`. The device library is a parameter, which answers by the calls made so far.
use rune_old.Base.{ℕ, Bool, Option, none, some, List, [], ◌∷◌, ◌++◌, if◌then◌else◌, Bytes}

pub data AlcCall : Type 0 where
  alc_open_device al_gen_stream_buffers : AlcCall
  alc_create_context : ℕ → AlcCall
  alc_make_context_current alc_destroy_context alc_close_device : Option ℕ → AlcCall

-- `none` is a null pointer.
pub record Alc : Type 0 where
  pub open_device : List AlcCall → Option ℕ
  pub create_context : List AlcCall → ℕ → Option ℕ
  pub makes_current : List AlcCall → Bool
  pub stream_buffers : List AlcCall → List ℕ

-- `g_device`, `g_context` and `g_streamBuffers`.
pub record Device : Type 0 where
  pub device : Option ℕ
  pub context : Option ℕ
  pub buffers : List ℕ
  pub calls : List AlcCall

abbrev pub ask : AlcCall → Device → Device
ask c d = record d { calls = d.calls ++ c ∷ [] }

-- The code behind `#if 0` is not part of the program.
unfoldable pub get_available_devices : Option (List Bytes)
get_available_devices = none

module _ (alc : Alc) where
  -- The part of `initialise` behind the opening of a device.
  unfoldable pub open_context : ℕ → Device → Device
  open_context device d =
      let created = alc.create_context d.calls device in
      let made = record (ask (alc_create_context device) d) { context = created } in
      elim created [
        | none ↦ made
        | some context ↦
            let current = ask (alc_make_context_current (some context)) made in
            if alc.makes_current made.calls
            then (record (ask al_gen_stream_buffers current) {
              buffers = alc.stream_buffers current.calls;
            })
            else current
      ]

  unfoldable pub initialise : Device → Device
  unfolding open_context
  initialise d =
      let opened = alc.open_device d.calls in
      let begun = record (ask alc_open_device d) { device = opened } in
      elim opened [ none ↦ begun | some device ↦ open_context device begun ]

  -- The part of `shutdown` behind its loops. The context is made current and then destroyed.
  unfoldable pub close : Device → Device
  close d = record d {
    device = none;
    context = none;
    calls =
        d.calls
        ++ alc_make_context_current d.context
          ∷ alc_destroy_context d.context
          ∷ alc_close_device d.device
          ∷ [];
  }
