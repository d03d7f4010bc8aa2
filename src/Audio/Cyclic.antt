-- ===== src/Audio/Cyclic.antt =====
-- What a streamed source plays: its audio over and over.
pub mod Reading
pub mod Buffer
use rune_old.Base.{
  le→leb, not-lt→ltb, ℕ, zero, suc, ◌+◌, ◌-◌, ◌*◌, ◌%◌, ◌^◌, ◌<◌, ◌≤◌, ◌≡◌, refl, sym, ap, ap₂, ◌∙◌,
  arith, true, false, List, [], ◌∷◌, ◌++◌, append_assoc, append-nil, ltb, lt→ltb, leb, dec_lt,
  length, take, drop, length-drop, Bytes, Outcome, ok, fault, out_of_bounds, ◌⊎◌, inl, inr,
}
use native.Mathlib.Nat.{mod-eq_of_lt}
use rune_old.Audio.{AlCall, al_buffer_data, al_queue_buffers, al_unqueue_buffer, Format, Al}
use rune_old.Audio.Stream.{sub64, next_data, stream_loop, update_stream}
use rune_old.Audio.Cyclic.Reading.{cyclic}
use rune_old.Audio.Cyclic.Buffer.{Next, Next-inside}

-- What the calls put into buffers, one after the other.
abbrev pub bytes_of : {F : Type 0} → AlCall F → Bytes
bytes_of (al_buffer_data b f bytes rate) = bytes
bytes_of c = []

abbrev pub submitted : {F : Type 0} → List (AlCall F) → Bytes
submitted [] = []
submitted (c ∷ calls) = bytes_of c ++ submitted calls

submitted-append :
    {F : Type 0} (xs ys : List (AlCall F)) → submitted (xs ++ ys) ≡ submitted xs ++ submitted ys
submitted-append [] ys = refl
submitted-append (c ∷ calls) ys =
    ap (λ bs. bytes_of c ++ bs) (submitted-append calls ys)
    ∙ sym (append_assoc (bytes_of c) (submitted calls) (submitted ys))

-- The code returns a cursor in the audio and has submitted the next `n` bytes of the audio played
-- over and over, which goes on from that cursor.
pub record Streams {F : Type 0} (audio_data : Bytes) (n cursor : ℕ) (calls : List (AlCall F))
    (out : Outcome (ℕ × List (AlCall F))) : Type 0 where
  pub cursor' : ℕ
  pub calls' : List (AlCall F)
  pub returns : out ≡ ok (cursor', calls')
  pub in_range : cursor' ≤ length audio_data
  pub plays : submitted calls' ≡ submitted calls ++ cyclic audio_data n (drop cursor audio_data)
  pub continues :
      (k : ℕ)
      → cyclic audio_data (n + k) (drop cursor audio_data)
        ≡ cyclic audio_data n (drop cursor audio_data)
          ++ cyclic audio_data k (drop cursor' audio_data)

-- The code is at the end of the audio with a buffer to fill: the buffers so far end where the audio
-- does, and the element at the cursor is not there.
pub record RunsOff {F : Type 0} (audio_data : Bytes) (size n cursor : ℕ)
    (out : Outcome (ℕ × List (AlCall F))) : Type 0 where
  pub filled : ℕ
  pub turns : ℕ
  pub some_left : filled < n
  pub at_end : cursor + filled * size ≡ suc turns * length audio_data
  pub faults : out ≡ fault out_of_bounds

module _ {F : Type 0} (al : Al F) (size source rate : ℕ) (f : Format) (audio_data : Bytes)
    (enough : size ≤ length audio_data) (small : length audio_data + size < 2 ^ 64) where
  refilled : ℕ → Bytes → List (AlCall F) → List (AlCall F)
  refilled buffer bytes calls =
      calls
      ++ al_unqueue_buffer source buffer
        ∷ al_buffer_data buffer f bytes rate
        ∷ al_queue_buffers source (buffer ∷ [])
        ∷ []

  unrolled :
      (n k : ℕ) {cursor : ℕ} (next : Next size audio_data enough cursor)
      → cyclic audio_data (suc n * size + k) (drop cursor audio_data)
        ≡ next.bytes ++ cyclic audio_data (n * size + k) (drop next.cursor' audio_data)
  unrolled n k {cursor = cursor} next =
      let sum : suc n * size + k ≡ size + (n * size + k) = grind arith in
      ap (λ m. cyclic audio_data m (drop cursor audio_data)) sum ∙ next.continues (n * size + k)

  unrolled-all :
      (n : ℕ) {cursor : ℕ} (next : Next size audio_data enough cursor)
      → cyclic audio_data (suc n * size) (drop cursor audio_data)
        ≡ next.bytes ++ cyclic audio_data (n * size) (drop next.cursor' audio_data)
  unrolled-all n {cursor = cursor} next =
      let left : suc n * size ≡ suc n * size + 0 = omega arith in
      let right : n * size + 0 ≡ n * size = omega arith in
      ap (λ m. cyclic audio_data m (drop cursor audio_data)) left
      ∙ unrolled n 0 next
      ∙ ap (λ m. next.bytes ++ cyclic audio_data m (drop next.cursor' audio_data)) right

  more-Streams :
      (n cursor : ℕ) (calls : List (AlCall F)) (next : Next size audio_data enough cursor)
      → Streams audio_data
          (n * size)
          next.cursor'
          (refilled (al.unqueued calls source) next.bytes calls)
          (stream_loop al size source f rate audio_data n next.cursor'
            (refilled (al.unqueued calls source) next.bytes calls))
      → Streams audio_data
          (suc n * size)
          cursor
          calls
          (stream_loop al size source f rate audio_data (suc n) cursor calls)
  unfolding stream_loop refilled
  more-Streams n cursor calls next rest = record {
    cursor' = rest.cursor';
    calls' = rest.calls';
    returns = rw (next.returns) rest.returns;
    in_range = rest.in_range;
    plays =
        rest.plays
        ∙ ap (λ bs. bs ++ cyclic audio_data (n * size) (drop next.cursor' audio_data))
            (submitted-append calls _ ∙ ap (λ bs. submitted calls ++ bs) (append-nil next.bytes))
        ∙ append_assoc (submitted calls) next.bytes _
        ∙ ap (λ bs. submitted calls ++ bs) (sym (unrolled-all n next));
    continues = λ k.
        unrolled n k next
        ∙ ap (λ bs. next.bytes ++ bs) (rest.continues k)
        ∙ sym (append_assoc next.bytes (cyclic audio_data (n * size) _) _)
        ∙ ap (λ bs. bs ++ cyclic audio_data k (drop rest.cursor' audio_data))
            (sym (unrolled-all n next));
  }

  at_end-RunsOff :
      (n cursor : ℕ) (calls : List (AlCall F))
      → cursor ≡ length audio_data
      → RunsOff audio_data size
          (suc n)
          cursor
          (stream_loop al size source f rate audio_data (suc n) cursor calls)
  unfolding stream_loop next_data
  at_end-RunsOff n cursor calls end = record {
    filled = 0;
    turns = 0;
    some_left = omega arith;
    at_end = omega arith;
    faults = rw (not-lt→ltb cursor (length audio_data) (omega arith)) refl;
  }

  more-RunsOff :
      (n cursor : ℕ) (calls : List (AlCall F)) (next : Next size audio_data enough cursor)
      → RunsOff audio_data size n next.cursor' (
          stream_loop al size source f rate audio_data n next.cursor'
            (refilled (al.unqueued calls source) next.bytes calls))
      → RunsOff audio_data size
          (suc n)
          cursor
          (stream_loop al size source f rate audio_data (suc n) cursor calls)
  unfolding stream_loop refilled
  more-RunsOff n cursor calls next off = record {
    filled = suc off.filled;
    turns = next.turns + off.turns;
    some_left = omega (arith, off.some_left);
    at_end =
        let moved = next.moves in
        let end = off.at_end in
        let one_more : cursor + suc off.filled * size ≡ (cursor + size) + off.filled * size =
          grind arith in
        let sum : suc (next.turns + off.turns) * length audio_data
            ≡ next.turns * length audio_data + suc off.turns * length audio_data =
          grind arith in
        omega (arith, one_more, sum, moved, end);
    faults = rw (next.returns) off.faults;
  }

  stream_loop-Streams :
      (n cursor : ℕ) (calls : List (AlCall F))
      → cursor ≤ length audio_data
      → Streams audio_data
          (n * size)
          cursor
          calls
          (stream_loop al size source f rate audio_data n cursor calls)
        ⊎ RunsOff audio_data size n cursor
            (stream_loop al size source f rate audio_data n cursor calls)
  unfolding stream_loop refilled
  stream_loop-Streams zero cursor calls inside =
      let none_left : 0 * size ≡ 0 = omega arith in
      inl (record {
        cursor' = cursor;
        calls' = calls;
        returns = refl;
        in_range = inside;
        plays = rw (none_left, append-nil) refl;
        continues = λ k.
            rw (none_left) (ap (λ n. cyclic audio_data n (drop cursor audio_data)) (omega arith));
      })
  stream_loop-Streams (suc n) cursor calls inside = elim (dec_lt cursor (length audio_data)) [
    | no h ↦ inr (at_end-RunsOff n cursor calls (omega arith))
    | yes h ↦
        let next = Next-inside size audio_data enough cursor small h in
        elim (stream_loop-Streams n next.cursor'
          (refilled (al.unqueued calls source) next.bytes calls) next.in_range) [
            | inl rest ↦ inl (more-Streams n cursor calls next rest)
            | inr off ↦ inr (more-RunsOff n cursor calls next off)
          ]
  ]

-- A source whose audio is at least as long as a buffer and whose cursor stands in front of its end
-- plays the audio over and over: for `n` buffers that were processed, `update_stream` submits the
-- next `n * size` bytes of the audio, from the cursor on and from its start again behind its end,
-- and leaves the cursor in the audio where these bytes go on. The one exception is that fewer than
-- `n` buffers, from the cursor on, end exactly where the audio does: then the code reads behind the
-- end for the buffer that follows, which is a fault.
pub update_stream-Streams :
    {F : Type 0} (al : Al F) (size source rate : ℕ) (f : Format) (audio_data : Bytes) (cursor : ℕ)
    (calls : List (AlCall F))
    → size ≤ length audio_data
    → length audio_data + size < 2 ^ 64
    → cursor < length audio_data
    → Streams audio_data
        (al.buffers_processed calls source * size)
        cursor
        calls
        (update_stream al size source f rate audio_data cursor calls)
      ⊎ RunsOff audio_data size
          (al.buffers_processed calls source)
          cursor
          (update_stream al size source f rate audio_data cursor calls)
unfolding update_stream
update_stream-Streams al size source rate f audio_data cursor calls enough small inside =
    stream_loop-Streams al size source rate f audio_data enough small
      (al.buffers_processed calls source) cursor calls (omega arith)
