-- ===== src/Ini/Errors.antt =====
-- The errors of `INIReader::parse_content`, on any content.
use rune_old.Base.{
  ℕ, suc, ◌+◌, ◌%◌, ◌^◌, ◌<◌, ◌≡◌, refl, sym, ap, ◌∙◌, Bool, true, false, ◌||◌, Option, none, some,
  List, [], ◌∷◌, ◌++◌, append-nil, append_assoc, ◌==◌, if◌then◌else◌, arith, length, Bytes, codes,
  Bool-cases, inl, inr,
}
use rune_old.Ini.{
  IniReader, Parsing, c_string, lines, is_empty, starts_with, ends_with, index_of, append_error,
  parse_statement, parse_line, parse_lines, parse_content, set_value,
}
use rune_old.Numbers.{format_unsigned}
use rune_old.Strings.{trim}

abbrev pub has : ℕ → Bytes → Bool
has b [] = false
has b (c ∷ cs) = if c == b then true else has b cs

-- What is wrong with a line from which white space was taken off: nothing, if it is empty, a comment,
-- a section in brackets, or an entry with a sign of equality.
abbrev pub complaint : Bytes → Option Bytes
complaint [] = none
complaint (c ∷ cs) =
    if c == b';'
    then none
    else if c == b'['
    then (if ends_with b']' (c ∷ cs) then none else some (codes ": line does not end with ']'.\n"))
    else if has b'=' (c ∷ cs)
    then none
    else some (codes ": invalid line.\n")

abbrev pub noted : ℕ → Option Bytes → Bytes
noted n none = []
noted n (some message) = codes "line " ++ (format_unsigned n ++ message)

-- The complaints about the lines behind the first `n`, each with the number of its line.
abbrev pub report : ℕ → List Bytes → Bytes
report n [] = []
report n (l ∷ ls) = noted (suc n) (complaint (trim l)) ++ report (suc n) ls

index_of-has :
    (b : ℕ) (s : Bytes)
    → (has b s ≡ true → (i : ℕ) × (index_of b s ≡ some i)) × (has b s ≡ false → index_of b s ≡ none)
unfolding index_of
index_of-has b [] = (λ h. cc, λ h. refl)
index_of-has b (c ∷ cs) = elim (Bool-cases (c == b)) [
  | inl here ↦ (λ h. (0, rw here refl), λ h. cc (rw here at h))
  | inr other ↦
      let (found, missing) = index_of-has b cs in
      (
        λ h. (let (i, e) = found (rw other at h) in (suc i, rw (other, e) refl)),
        λ h. (rw (other, missing (rw other at h)) refl),
      )
]

-- The errors of a parsing state with one more complaint.
abbrev told : Parsing → Option Bytes → Bytes
told p o = p.reader.errors ++ noted p.line_index o

parse_statement-errors :
    (c : ℕ) (cs : Bytes) (p : Parsing)
    → (c == b';') ≡ false
    → ((parse_statement (c ∷ cs) p).reader.errors ≡ told p (complaint (c ∷ cs)))
      × ((parse_statement (c ∷ cs) p).line_index ≡ p.line_index)
unfolding parse_statement starts_with append_error set_value
parse_statement-errors c cs p no_comment = elim (Bool-cases (c == b'[')) [
  | inl bracket ↦ elim (Bool-cases (ends_with b']' (c ∷ cs))) [
    | inl closed ↦
        rw (parse_statement, no_comment, bracket, closed) (sym (append-nil p.reader.errors), refl)
    | inr open' ↦ rw (parse_statement, no_comment, bracket, open') (refl, refl)
  ]
  | inr other ↦ elim (Bool-cases (has b'=' (c ∷ cs))) [
    | inl there ↦
        let (i, e) = (index_of-has b'=' (c ∷ cs)).0 there in
        rw (parse_statement, no_comment, other, there, e) (sym (append-nil p.reader.errors), refl)
    | inr missing ↦
        rw (parse_statement, no_comment, other, missing, (index_of-has b'=' (c ∷ cs)).1 missing)
          (refl, refl)
  ]
]

-- A line counts, and is complained about where something is wrong with it.
abbrev counted : Parsing → Parsing
counted p = record p { line_index = (p.line_index + 1) % 2 ^ 32 }

parse_trimmed :
    (line : Bytes) (p : Parsing)
    → let done = if is_empty line || starts_with b';' line then p else parse_statement line p in
      (done.reader.errors ≡ told p (complaint line)) × (done.line_index ≡ p.line_index)
unfolding is_empty starts_with
parse_trimmed [] p = (sym (append-nil p.reader.errors), refl)
parse_trimmed (c ∷ cs) p = elim (Bool-cases (c == b';')) [
  | inl comment ↦ rw comment (sym (append-nil p.reader.errors), refl)
  | inr other ↦ rw other (rw other at (parse_statement-errors c cs p other))
]

parse_lines-errors :
    (ls : List Bytes) (p : Parsing) (n : ℕ)
    → p.line_index ≡ n
    → n + length ls < 2 ^ 32
    → (parse_lines ls p).reader.errors ≡ p.reader.errors ++ report n ls
unfolding parse_lines parse_line
parse_lines-errors [] p n at few = sym (append-nil p.reader.errors)
parse_lines-errors (l ∷ ls) p n at few =
    let (said, index) = parse_trimmed (trim l) (counted p) in
    let next : (p.line_index + 1) % 2 ^ 32 ≡ suc n = omega (arith, at) in
    parse_lines-errors ls (parse_line l p) (suc n) (index ∙ next) (omega arith)
    ∙ ap (λ x. x ++ report (suc n) ls)
        (said ∙ ap (λ i. p.reader.errors ++ noted i (complaint (trim l))) next)
    ∙ append_assoc p.reader.errors (noted (suc n) (complaint (trim l))) (report (suc n) ls)

-- On any content of fewer than 2 ^ 32 lines, and from any reader, the parser appends to the errors
-- exactly the complaints about the lines, in their order and each with the number of its line: of an
-- opened bracket that is not closed at the end of the line, and of a line that is not empty and has
-- neither a comment, nor a bracket in front, nor a sign of equality.
pub errors-parse_content :
    (content : Bytes) (r : IniReader)
    → length (lines (c_string content)) < 2 ^ 32
    → (parse_content content r).errors ≡ r.errors ++ report 0 (lines (c_string content))
unfolding parse_content
errors-parse_content content r few =
    parse_lines-errors (lines (c_string content))
      (record { line_index = 0; section = []; reader = r }) 0 refl (omega arith)
