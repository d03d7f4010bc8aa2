-- ===== src/Strings/Trim.antt =====
-- What the trimming functions of strings.cpp do.
use rune_old.Base.{
  true, false, ◌≡◌, refl, ap, sym, ◌∙◌, [], ◌∷◌, ◌++◌, reverse, reverse-append, reverse-reverse,
  reverse-cons, Bytes, Bool-cases, inl, inr,
}
use rune_old.Strings.{is_space, left_trim, right_trim, trim}

-- All bytes are white space.
abbrev pub AllSpace : Bytes → Type 0
AllSpace [] = Unit
AllSpace (c ∷ cs) = (is_space c ≡ true) × AllSpace cs

-- The first byte, if there is one, is no white space.
abbrev pub StartsClean : Bytes → Type 0
StartsClean [] = Unit
StartsClean (c ∷ cs) = is_space c ≡ false

AllSpace-append : (xs ys : Bytes) → AllSpace xs → AllSpace ys → AllSpace (xs ++ ys)
AllSpace-append [] ys h k = k
AllSpace-append (x ∷ xs) ys h k = (h.0, AllSpace-append xs ys h.1 k)

AllSpace-reverse : (xs : Bytes) → AllSpace xs → AllSpace (reverse xs)
AllSpace-reverse [] h = tt
AllSpace-reverse (x ∷ xs) h =
    rw (reverse-cons x xs)
      (AllSpace-append (reverse xs) (x ∷ []) (AllSpace-reverse xs h.1) (h.0, tt))

StartsClean-prefix : (t back : Bytes) → StartsClean (t ++ back) → StartsClean t
StartsClean-prefix [] back h = tt
StartsClean-prefix (c ∷ t) back h = h

-- White space that `left_trim` takes off.
record TrimsLeft (s t : Bytes) : Type 0 where
  front : Bytes
  splits : s ≡ front ++ t
  front_space : AllSpace front
  clean : StartsClean t

left_trim-TrimsLeft : (s : Bytes) → TrimsLeft s (left_trim s)
unfolding left_trim
left_trim-TrimsLeft [] = record { front = []; splits = refl; front_space = tt; clean = tt }
left_trim-TrimsLeft (c ∷ cs) = elim (Bool-cases (is_space c)) [
  | inl space ↦ rw space (
      let t = left_trim-TrimsLeft cs in
      record {
        front = c ∷ t.front;
        splits = ap (◌∷◌ c) t.splits;
        front_space = (space, t.front_space);
        clean = t.clean;
      })
  | inr other ↦ rw other (record { front = []; splits = refl; front_space = tt; clean = other })
]

-- `t` is `s` without the white space at its two ends, and without nothing else.
pub record TrimsTo (s t : Bytes) : Type 0 where
  pub front : Bytes
  pub back : Bytes
  pub splits : s ≡ front ++ (t ++ back)
  pub front_space : AllSpace front
  pub back_space : AllSpace back
  pub starts_clean : StartsClean t
  pub ends_clean : StartsClean (reverse t)

-- `trim` takes white space off the two ends of a string and nothing else: the string is its result
-- with white space only before and behind it, and the result neither starts nor ends with any.
pub trim-TrimsTo : (s : Bytes) → TrimsTo s (trim s)
unfolding trim right_trim
trim-TrimsTo s =
    let l = left_trim-TrimsLeft s in
    let r = left_trim-TrimsLeft (reverse (left_trim s)) in
    let parts : left_trim s ≡ trim s ++ reverse r.front =
      sym (reverse-reverse (left_trim s)) ∙ ap reverse r.splits ∙ reverse-append r.front _ in
    record {
      front = l.front;
      back = reverse r.front;
      splits = l.splits ∙ ap (λ t. l.front ++ t) parts;
      front_space = l.front_space;
      back_space = AllSpace-reverse r.front r.front_space;
      starts_clean = StartsClean-prefix (trim s) (reverse r.front) (rw parts at l.clean);
      ends_clean = rw reverse-reverse r.clean;
    }

left_trim-StartsClean : (s : Bytes) → StartsClean s → left_trim s ≡ s
unfolding left_trim
left_trim-StartsClean [] h = refl
left_trim-StartsClean (c ∷ cs) h = rw h

-- A string with no white space at either end is left alone.
pub trim_clean : (s : Bytes) → StartsClean s → StartsClean (reverse s) → trim s ≡ s
unfolding trim right_trim
trim_clean s h k =
    rw (left_trim-StartsClean s h, left_trim-StartsClean (reverse s) k) (reverse-reverse s)

-- Trimming twice is trimming once.
pub trim-trim : (s : Bytes) → trim (trim s) ≡ trim s
trim-trim s = let t = trim-TrimsTo s in trim_clean (trim s) t.starts_clean t.ends_clean
