-- ===== src/Logging/Said.antt =====
-- What lines come to: one call of the logging library for each, or none in a build for distribution.
use rune_old.Base.{
  ◌≡◌, refl, sym, ap, ◌∙◌, Bool, true, false, List, [], ◌∷◌, ◌++◌, append_assoc, append-nil,
  if◌then◌else◌, Bytes, ok, for_each, fault, null_access,
}
use rune_old.Logging.{
  LogLevel, convert_log_level, LogCall, log_line, SystemLogging, ask, log, log_macro,
}

taken : {A : Type 0} (b : Bool) (x y : A) → b ≡ true → (if b then x else y) ≡ x
taken true x y h = refl
taken false x y h = cc

abbrev pub Line : Type 0
Line = LogLevel × Bytes

pub ask-ask : (a b : List LogCall) (s : SystemLogging) → ask b (ask a s) ≡ ask (a ++ b) s
ask-ask a b s = ap (λ c. record s { calls = c }) (append_assoc s.calls a b)

module _ (distro : Bool) where
  -- What the library is asked for by lines.
  abbrev pub said : List Line → List LogCall
  said [] = []
  said (l ∷ ls) = (if distro then [] else log_line (convert_log_level l.0) l.1 ∷ []) ++ said ls

  pub said-append : (xs ys : List Line) → said (xs ++ ys) ≡ said xs ++ said ys
  said-append [] ys = refl
  said-append (x ∷ xs) ys =
      ap (λ c. (if distro then [] else log_line (convert_log_level x.0) x.1 ∷ []) ++ c)
        (said-append xs ys)
      ∙ sym (append_assoc (if distro then [] else log_line (convert_log_level x.0) x.1 ∷ []) _ _)

  pub log_macro-said :
      (l : Line) (s : SystemLogging)
      → s.has_logger ≡ true
      → log_macro distro l.0 l.1 s ≡ ok (ask (said (l ∷ [])) s)
  unfolding log_macro log
  log_macro-said l s h = go distro s h
    where
      go :
          (b : Bool) (s : SystemLogging)
          → s.has_logger ≡ true
          → (if b
              then ok s
              else if s.has_logger
              then ok (ask (log_line (convert_log_level l.0) l.1 ∷ []) s)
              else fault null_access)
            ≡ ok (ask ((if b then [] else log_line (convert_log_level l.0) l.1 ∷ []) ++ []) s)
      go true s h = ap (λ c. ok (record s { calls = c })) (sym (append-nil s.calls))
      go false s h = taken s.has_logger _ _ h

  pub log_each :
      (ls : List Line) (s : SystemLogging)
      → s.has_logger ≡ true
      → for_each (λ (l : Line). log_macro distro l.0 l.1) ls s ≡ ok (ask (said ls) s)
  log_each [] s h = ap (λ c. ok (record s { calls = c })) (sym (append-nil s.calls))
  log_each (l ∷ ls) s h = rw (log_macro-said l s h) (
      log_each ls (ask (said (l ∷ [])) s) h
      ∙ ap ok
          (ask-ask (said (l ∷ [])) (said ls) s ∙ ap (λ c. ask c s) (sym (said-append (l ∷ []) ls))))
