-- ===== src/Audio/Cyclic/Buffer.antt =====
-- What `next_data` puts into one buffer.
use rune_old.Base.{
  le→leb, not-lt→ltb, ℕ, ◌+◌, ◌-◌, ◌*◌, ◌%◌, ◌^◌, ◌<◌, ◌≤◌, ◌≡◌, sym, ap, ap₂, ◌∙◌, arith, ◌++◌,
  append_assoc, lt→ltb, dec_lt, length, take, drop, length-drop, Bytes, ok,
}
use native.Mathlib.Nat.{mod-eq_of_lt}
use rune_old.Audio.Stream.{sub64, next_data}
use rune_old.Audio.Cyclic.Reading.{cyclic, cyclic-again, cyclic-add, drop-drop, take-all, drop-all}

module _ (size : ℕ) (audio_data : Bytes) (enough : size ≤ length audio_data) where
  -- What one buffer holds, and where the cursor goes.
  pub record Next (cursor : ℕ) : Type 0 where
    pub bytes : Bytes
    pub cursor' : ℕ
    pub returns : next_data size audio_data cursor ≡ ok (bytes, cursor')
    pub in_range : cursor' ≤ length audio_data
    pub turns : ℕ
    pub moves : cursor + size ≡ turns * length audio_data + cursor'
    pub continues :
        (k : ℕ)
        → cyclic audio_data (size + k) (drop cursor audio_data)
          ≡ bytes ++ cyclic audio_data k (drop cursor' audio_data)

  Next-fits :
      (cursor : ℕ)
      → length audio_data + size < 2 ^ 64
      → cursor < length audio_data
      → cursor + size ≤ length audio_data
      → Next cursor
  unfolding next_data
  Next-fits cursor small inside fits =
      let at : (cursor + size) % 2 ^ 64 ≡ cursor + size = mod-eq_of_lt (omega arith) in
      record {
        bytes = take size (drop cursor audio_data);
        cursor' = cursor + size;
        returns = rw (
          at,
          lt→ltb cursor (length audio_data) inside,
          not-lt→ltb (length audio_data) (cursor + size) fits,
          le→leb (cursor + size) (length audio_data) fits,
          not-lt→ltb size size (omega arith),
          at,
        );
        in_range = fits;
        turns = 0;
        moves = omega arith;
        continues = λ k.
            cyclic-add audio_data size k (drop cursor audio_data)
              (omega (arith, length-drop cursor audio_data))
            ∙ ap (λ xs. take size (drop cursor audio_data) ++ cyclic audio_data k xs)
                (drop-drop cursor size audio_data);
      }

  cyclic-wraps :
      (cursor : ℕ)
      → cursor ≤ length audio_data
      → length audio_data < cursor + size
      → (k : ℕ)
      → cyclic audio_data (size + k) (drop cursor audio_data)
        ≡ (drop cursor audio_data ++ take (size - (length audio_data - cursor)) audio_data)
          ++ cyclic audio_data k (drop (size - (length audio_data - cursor)) audio_data)
  cyclic-wraps cursor inside wraps k =
      let rest = drop cursor audio_data in
      let left = length audio_data - cursor in
      let back = size - left in
      let sum : size + k ≡ left + (back + k) = omega arith in
      let at_end : length rest ≤ left = omega (arith, length-drop cursor audio_data) in
      let all : left ≤ length rest = omega (arith, length-drop cursor audio_data) in
      ap (λ n. cyclic audio_data n rest) sum
      ∙ cyclic-add audio_data left (back + k) rest all
      ∙ ap₂ (λ xs ys. xs ++ cyclic audio_data (back + k) ys) (take-all left rest at_end)
          (drop-all left rest at_end)
      ∙ ap (λ xs. rest ++ xs)
          (cyclic-again audio_data (back + k)
            ∙ cyclic-add audio_data back k audio_data (omega arith))
      ∙ sym (append_assoc rest (take back audio_data) _)

  Next-wraps :
      (cursor : ℕ)
      → length audio_data + size < 2 ^ 64
      → cursor < length audio_data
      → length audio_data < cursor + size
      → Next cursor
  unfolding next_data
  Next-wraps cursor small inside wraps =
      let left = length audio_data - cursor in
      let at : (cursor + size) % 2 ^ 64 ≡ cursor + size = mod-eq_of_lt (omega arith) in
      let copied : sub64 (length audio_data) cursor ≡ left = omega arith in
      let front : take left (drop cursor audio_data) ≡ drop cursor audio_data =
        take-all left (drop cursor audio_data) (omega (arith, length-drop cursor audio_data)) in
      record {
        bytes = drop cursor audio_data ++ take (size - left) audio_data;
        cursor' = size - left;
        returns = rw (
          at,
          lt→ltb cursor (length audio_data) inside,
          lt→ltb (length audio_data) (cursor + size) wraps,
          copied,
          le→leb (cursor + left) (length audio_data) (omega arith),
          lt→ltb left size (omega arith),
          le→leb (0 + (size - left)) (length audio_data) (omega arith),
          front,
        );
        in_range = omega arith;
        turns = 1;
        moves = omega arith;
        continues = cyclic-wraps cursor (omega arith) wraps;
      }

  pub Next-inside :
      (cursor : ℕ) → length audio_data + size < 2 ^ 64 → cursor < length audio_data → Next cursor
  Next-inside cursor small inside = elim (dec_lt (length audio_data) (cursor + size)) [
    | yes h ↦ Next-wraps cursor small inside h
    | no h ↦ Next-fits cursor small inside (omega arith)
  ]
