-- ===== src/Audio/Errors.antt =====
-- Rune/src/audio/al_common.hpp: what is logged for an error behind a call of the audio library.
use rune_old.Numbers.{format_unsigned}
use rune_old.Base.{ℕ, Option, none, some, List, [], ◌∷◌, ◌++◌, Bytes, codes}

-- What `alGetError` and `alcGetError` return, if it is not the absence of an error.
pub data AlError : Type 0 where
  invalid_name invalid_enum invalid_value invalid_operation out_of_memory unknown : AlError

pub data AlcError : Type 0 where
  invalid_value invalid_device invalid_context invalid_enum out_of_memory : AlcError
  unknown : Bytes → AlcError

unfoldable pub al_error_text : AlError → Bytes
al_error_text AlError.invalid_name =
    codes "AL_INVALID_NAME: a bad name (ID) was passed to an OpenAL function"
al_error_text AlError.invalid_enum =
    codes "AL_INVALID_ENUM: an invalid enum value was passed to an OpenAL function"
al_error_text AlError.invalid_value =
    codes "AL_INVALID_VALUE: an invalid value was passed to an OpenAL function"
al_error_text AlError.invalid_operation =
    codes "AL_INVALID_OPERATION: the requested operation is not valid"
al_error_text AlError.out_of_memory =
    codes "AL_OUT_OF_MEMORY: the requested operation resulted in OpenAL running out of memory"
al_error_text AlError.unknown = codes "UNKNOWN AL ERROR: "

unfoldable pub alc_error_text : AlcError → Bytes
alc_error_text AlcError.invalid_value =
    codes "ALC_INVALID_VALUE: an invalid value was passed to an OpenAL function"
alc_error_text AlcError.invalid_device =
    codes "ALC_INVALID_DEVICE: a bad device was passed to an OpenAL function"
alc_error_text AlcError.invalid_context =
    codes "ALC_INVALID_CONTEXT: a bad context was passed to an OpenAL function"
alc_error_text AlcError.invalid_enum =
    codes "ALC_INVALID_ENUM: an unknown enum value was passed to an OpenAL function"
alc_error_text AlcError.out_of_memory =
    codes "ALC_OUT_OF_MEMORY: an unknown enum value was passed to an OpenAL function"
alc_error_text (AlcError.unknown error) = codes "UNKNOWN ALC ERROR: " ++ error

-- The first line names the place of the call.
unfoldable pub place_text : Bytes → ℕ → Bytes
place_text filename line =
    codes "***ERROR*** (" ++ filename ++ codes " : " ++ format_unsigned line ++ codes ")"

unfoldable pub check_al_errors : Bytes → ℕ → Option AlError → List Bytes
unfolding al_error_text place_text
check_al_errors filename line none = []
check_al_errors filename line (some e) = place_text filename line ∷ al_error_text e ∷ []

unfoldable pub check_alc_errors : Bytes → ℕ → Option AlcError → List Bytes
unfolding alc_error_text place_text
check_alc_errors filename line none = []
check_alc_errors filename line (some e) = place_text filename line ∷ alc_error_text e ∷ []

-- `alCallImpl`: the call, and then the question for an error.
unfoldable pub al_call_impl :
    {W A : Type 0} → Bytes → ℕ → (W → A × W) → (W → Option AlError × W) → W → A × List Bytes × W
unfolding check_al_errors
al_call_impl filename line function get_error w =
    let called = function w in
    let asked = get_error called.1 in (called.0, check_al_errors filename line asked.0, asked.1)

unfoldable pub alc_call_impl :
    {W A : Type 0} → Bytes → ℕ → (W → A × W) → (W → Option AlcError × W) → W → A × List Bytes × W
unfolding check_alc_errors
alc_call_impl filename line function get_error w =
    let called = function w in
    let asked = get_error called.1 in (called.0, check_alc_errors filename line asked.0, asked.1)
