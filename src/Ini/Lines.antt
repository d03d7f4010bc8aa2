-- ===== src/Ini/Lines.antt =====
-- The lines of a file of the grammar, and the tests of `parse_content` on each of them.
use rune_old.Base.{
  ℕ, zero, suc, ◌+◌, ◌-◌, ◌≤◌, true, false, ◌≡◌, refl, ap, ◌∙◌, some, List, [], ◌∷◌, ◌++◌, reverse,
  reverse-append, reverse-cons, append_assoc, map, arith, Bytes, length, take, drop, length-append,
}
use rune_old.Maps.{bytes_eq}
use rune_old.Strings.{is_space, trim}
use rune_old.Strings.Trim.{StartsClean, trim_clean, AllSpace, trim-TrimsTo}
use rune_old.Ini.Render.{
  Item, blank, remark, header, entry, render_item, render, IsPlain, IsClean, NoEquals, IsItem,
  AllItems,
}
use rune_old.Ini.{c_string, lines, starts_with, ends_with, index_of, substr}

-- The lines of a file.

pub lines_line : (l rest : Bytes) → IsPlain l → lines (l ++ b'\n' ∷ rest) ≡ l ∷ lines rest
unfolding lines
lines_line [] rest h = refl
lines_line (c ∷ l) rest h = rw (h.0, lines_line l rest h.2)

pub c_string_line :
    (l rest : Bytes) → IsPlain l → c_string (l ++ b'\n' ∷ rest) ≡ l ++ b'\n' ∷ c_string rest
unfolding c_string
c_string_line [] rest h = refl
c_string_line (c ∷ l) rest h = rw (h.1, c_string_line l rest h.2)

pub IsPlain-append : (s t : Bytes) → IsPlain s → IsPlain t → IsPlain (s ++ t)
IsPlain-append [] t h k = k
IsPlain-append (c ∷ s) t h k = (h.0, h.1, IsPlain-append s t h.2 k)

pub IsPlain-render_item : (i : Item) → IsItem i → IsPlain (render_item i)
unfolding render_item
IsPlain-render_item blank h = tt
IsPlain-render_item (remark text) h = (refl, refl, h)
IsPlain-render_item (header name) h =
    (refl, refl, IsPlain-append name (b']' ∷ []) h (refl, refl, tt))
IsPlain-render_item (entry key value) h =
    IsPlain-append key (b'=' ∷ value) h.0.0 (refl, refl, h.1.0)

pub lines-render : (is : List Item) → AllItems is → lines (render is) ≡ map render_item is
unfolding render
lines-render [] h = unfold lines in refl
lines-render (i ∷ is) h =
    lines_line (render_item i) (render is) (IsPlain-render_item i h.0)
    ∙ ap (◌∷◌ (render_item i)) (lines-render is h.1)

pub c_string-render : (is : List Item) → AllItems is → c_string (render is) ≡ render is
unfolding render
c_string-render [] h = unfold c_string in refl
c_string-render (i ∷ is) h =
    c_string_line (render_item i) (render is) (IsPlain-render_item i h.0)
    ∙ ap (λ t. render_item i ++ b'\n' ∷ t) (c_string-render is h.1)

-- Items are trimmed already, or trimmed to what is recognised as well.

pub StartsClean-append : (s t : Bytes) → StartsClean s → StartsClean t → StartsClean (s ++ t)
StartsClean-append [] t h k = k
StartsClean-append (c ∷ s) t h k = h

pub trim-header : (name : Bytes) → trim (b'[' ∷ (name ++ b']' ∷ [])) ≡ b'[' ∷ (name ++ b']' ∷ [])
trim-header name = trim_clean _ (unfold is_space in refl) ends
  where
    ends : StartsClean (reverse (b'[' ∷ (name ++ b']' ∷ [])))
    ends =
        rw (reverse-cons b'[' (name ++ b']' ∷ []), reverse-append name (b']' ∷ []))
          (unfold is_space in refl)

pub trim-entry :
    (key value : Bytes)
    → IsClean key
    → IsClean value
    → trim (key ++ b'=' ∷ value) ≡ key ++ b'=' ∷ value
trim-entry key value k v = trim_clean _ starts ends
  where
    starts : StartsClean (key ++ b'=' ∷ value)
    starts = StartsClean-append key (b'=' ∷ value) k.0 (unfold is_space in refl)

    ends : StartsClean (reverse (key ++ b'=' ∷ value))
    ends =
        rw (reverse-append key (b'=' ∷ value), reverse-cons b'=' value, append_assoc)
          (StartsClean-append (reverse value) _ v.1 (unfold is_space in refl))

-- A string that starts with `c`, no white space, still starts with it when trimmed.
pub trim-starts_with_of :
    (c : ℕ) (cs front back t : Bytes)
    → is_space c ≡ false
    → c ∷ cs ≡ front ++ (t ++ back)
    → AllSpace front
    → AllSpace back
    → starts_with c t ≡ true
unfolding starts_with
trim-starts_with_of c cs [] [] [] h e f b = cc
trim-starts_with_of c cs [] (x ∷ back) [] h e f b = ground (arith, ap head_of e)
  where
    head_of : Bytes → ℕ
    head_of [] = 0
    head_of (x ∷ _) = x
trim-starts_with_of c cs [] back (x ∷ t) h e f b = ground arith
trim-starts_with_of c cs (x ∷ front) back t h e f b = ground arith

pub trim-starts_with :
    (c : ℕ) (cs : Bytes) → is_space c ≡ false → starts_with c (trim (c ∷ cs)) ≡ true
trim-starts_with c cs h =
    let t = trim-TrimsTo (c ∷ cs) in
    trim-starts_with_of c cs t.front t.back (trim (c ∷ cs)) h t.splits t.front_space t.back_space

-- The tests on a line of each kind.

pub ends_with-concat : (s : Bytes) (b : ℕ) → ends_with b (s ++ b ∷ []) ≡ true
unfolding ends_with
ends_with-concat [] b = ground arith
ends_with-concat (c ∷ []) b = ground arith
ends_with-concat (c ∷ d ∷ s) b = ends_with-concat (d ∷ s) b

pub take-length_append : (s t : Bytes) → take (length s) (s ++ t) ≡ s
take-length_append [] t = refl
take-length_append (c ∷ s) t = ap (◌∷◌ c) (take-length_append s t)

pub drop-length_append : (s : Bytes) (b : ℕ) (t : Bytes) → drop (length s + 1) (s ++ b ∷ t) ≡ t
drop-length_append [] b t = refl
drop-length_append (c ∷ s) b t =
    let e : suc (length s) + 1 ≡ suc (length s + 1) = omega arith in rw e (drop-length_append s b t)

pub take_all : (n : ℕ) (s : Bytes) → length s ≤ n → take n s ≡ s
take_all zero [] h = refl
take_all zero (c ∷ s) h = absurd (omega arith)
take_all (suc n) [] h = refl
take_all (suc n) (c ∷ s) h = ap (◌∷◌ c) (take_all n s (omega arith))

pub substr-name :
    (name : Bytes)
    → substr 1 (length (b'[' ∷ (name ++ b']' ∷ [])) - 2) (b'[' ∷ (name ++ b']' ∷ [])) ≡ name
unfolding substr
substr-name name =
    let e : length (b'[' ∷ (name ++ b']' ∷ [])) - 2 ≡ length name =
      omega (arith, length-append name (b']' ∷ [])) in
    rw e (take-length_append name (b']' ∷ []))

pub substr-key : (key value : Bytes) → substr 0 (length key) (key ++ b'=' ∷ value) ≡ key
unfolding substr
substr-key key value = take-length_append key (b'=' ∷ value)

pub substr-value :
    (key value : Bytes)
    → substr (length key + 1) (length (key ++ b'=' ∷ value) - length key) (key ++ b'=' ∷ value)
      ≡ value
unfolding substr
substr-value key value =
    rw (drop-length_append key b'=' value)
      (take_all _ value (omega (arith, length-append key (b'=' ∷ value))))

pub index_of-key :
    (key value : Bytes) → NoEquals key → index_of b'=' (key ++ b'=' ∷ value) ≡ some (length key)
unfolding index_of
index_of-key [] value h = refl
index_of-key (c ∷ key) value h = rw (h.0, index_of-key key value h.1)
