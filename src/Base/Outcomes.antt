-- ===== src/Base/Outcomes.antt =====
-- The outcome of code that may stop early: an exception, a failed assertion, an access that the
-- language leaves undefined, or a model's fuel.
use mathlib.Core.Path.{◌≡◌, refl, ◌∙◌}
use mathlib.Core.Bool.{Bool, true, false, not, ◌||◌}
use mathlib.Core.Option.{Option, none, some}
use mathlib.Core.List.{List, [], ◌∷◌}
use rune_old.Base.Checks.{if◌then◌else◌}

pub data Fault : Type 0 where
  -- `at` on a key that is missing, or an index past the end
  missing_key : Fault
  -- `std::stoi` on a text that is no number, or on one out of range
  invalid_argument value_out_of_range : Fault
  -- `RUNE_ASSERT`, and `RUNE_THROW_EX`
  assertion_failed exception_thrown : Fault
  -- memory read or written out of bounds, or through a null pointer
  out_of_bounds null_access : Fault
  -- the model's fuel ran out: the code is still running
  out_of_fuel : Fault

pub data Outcome {ℓ} (A : Type ℓ) : Type ℓ where
  ok : A → Outcome A
  fault : Fault → Outcome A

-- The value of an option, or the fault that its absence is.
abbrev pub or_fault {ℓ} : {A : Type ℓ} → Option A → Fault → Outcome A
or_fault (some a) e = ok a
or_fault none e = fault e

-- A test that must hold for the code to go on.
abbrev pub require : Bool → Fault → Outcome (Unit {0})
require holds e = elim holds [ true ↦ ok tt | false ↦ fault e ]

-- `RUNE_ASSERT` stops the program in a build with debug code, and is nothing in a distribution.
abbrev pub rune_assert : Bool → Bool → Outcome (Unit {0})
rune_assert debug b = require (not debug || b) assertion_failed

pub rune_assert-true : (debug : Bool) → rune_assert debug true ≡ ok tt
rune_assert-true true = refl
rune_assert-true false = refl

abbrev pub is_some {ℓ} : {A : Type ℓ} → Option A → Bool
is_some none = false
is_some (some _) = true

infixl 5 ◌>>=◌ ◌>>◌
abbrev pub ◌>>=◌ {ℓ κ} : {A : Type ℓ} {B : Type κ} → Outcome A → (A → Outcome B) → Outcome B
fault e >>= next = fault e
ok a >>= next = next a

abbrev pub ◌>>◌ {ℓ κ} : {A : Type ℓ} {B : Type κ} → Outcome A → Outcome B → Outcome B
first >> second = first >>= (λ _. second)

-- What comes behind may be replaced by what does the same, and binds associate.
pub bind-ap {ℓ κ} :
    {A : Type ℓ} {B : Type κ} (m : Outcome A) (f g : A → Outcome B)
    → ((a : A) → f a ≡ g a)
    → (m >>= f) ≡ (m >>= g)
bind-ap (ok a) f g h = h a
bind-ap (fault e) f g h = refl

pub bind_assoc {ℓ κ μ} :
    {A : Type ℓ} {B : Type κ} {C : Type μ} (m : Outcome A) (f : A → Outcome B) (h : B → Outcome C)
    → ((m >>= f) >>= h) ≡ (m >>= λ a. f a >>= h)
bind_assoc (ok a) f h = refl
bind_assoc (fault e) f h = refl

-- What holds of the result, if there is one.
abbrev pub Ensures {ℓ κ} : {A : Type ℓ} → (A → Type κ) → Outcome A → Type κ
Ensures P (ok a) = P a
Ensures P (fault e) = Unit

pub Ensures-bind {ℓ κ μ ν} :
    {A : Type ℓ} {B : Type κ} (P : A → Type μ) (Q : B → Type ν) (m : Outcome A) (f : A → Outcome B)
    → Ensures P m
    → ((a : A) → P a → Ensures Q (f a))
    → Ensures Q (m >>= f)
Ensures-bind P Q (ok a) f h next = next a h
Ensures-bind P Q (fault e) f h next = tt

pub Ensures-map {ℓ κ μ} :
    {A : Type ℓ} (P : A → Type κ) (Q : A → Type μ) (m : Outcome A)
    → ((a : A) → P a → Q a)
    → Ensures P m
    → Ensures Q m
Ensures-map P Q (ok a) f h = f a h
Ensures-map P Q (fault e) f h = tt

pub Ensures-always {ℓ} : {A : Type ℓ} (m : Outcome A) → Ensures (λ _. Unit {0}) m
Ensures-always (ok a) = tt
Ensures-always (fault e) = tt

pub Ensures-if {ℓ κ} :
    {A : Type ℓ} (P : A → Type κ) (b : Bool) (m n : Outcome A)
    → Ensures P m
    → Ensures P n
    → Ensures P (if b then m else n)
Ensures-if P true m n h k = h
Ensures-if P false m n h k = k

pub Ensures-ok {ℓ κ} :
    {A : Type ℓ} (P : A → Type κ) {m : Outcome A} {a : A} → Ensures P m → m ≡ ok a → P a
Ensures-ok P h e = rw e at h

-- The code returns, and what holds of its result.
abbrev pub Returns {ℓ κ} : {A : Type ℓ} → (A → Type κ) → Outcome A → Type (ℓ ⊔ κ)
Returns {A} P m = (a : A) × (m ≡ ok a) × P a

pub Returns-of_eq {ℓ κ} :
    {A : Type ℓ} {P : A → Type κ} {m n : Outcome A} → m ≡ n → Returns P n → Returns P m
Returns-of_eq e (a, run, p) = (a, e ∙ run, p)

pub Returns-bind {ℓ κ μ ν} :
    {A : Type ℓ} {B : Type κ} (P : A → Type μ) (Q : B → Type ν) (m : Outcome A) (f : A → Outcome B)
    → Returns P m
    → ((a : A) → P a → Returns Q (f a))
    → Returns Q (m >>= f)
Returns-bind P Q m f (a, e, p) next = rw e (next a p)

-- A loop that may stop early: `body` on each item in order, with the state handed on.
abbrev pub for_each {ℓ κ} : {A : Type ℓ} {S : Type κ} → (A → S → Outcome S) → List A → S → Outcome S
for_each body [] s = ok s
for_each body (x ∷ xs) s = body x s >>= for_each body xs

-- `std::optional::value_or`
abbrev pub get_value_or {ℓ} : {A : Type ℓ} → Option A → A → A
get_value_or (some a) d = a
get_value_or none d = d

pub for_each-Ensures {ℓ κ μ} :
    {A : Type ℓ} {S : Type κ} (P : S → Type μ) (f : A → S → Outcome S)
    → ((a : A) (s : S) → P s → Ensures P (f a s))
    → (xs : List A) (s : S) → P s
    → Ensures P (for_each f xs s)
for_each-Ensures P f keeps [] s p = p
for_each-Ensures P f keeps (x ∷ xs) s p =
    Ensures-bind P P (f x s) (for_each f xs) (keeps x s p)
      (λ s' p'. for_each-Ensures P f keeps xs s' p')

pub for_each-Returns {ℓ κ μ} :
    {A : Type ℓ} {S : Type κ} (P : S → Type μ) (f : A → S → Outcome S)
    → ((a : A) (s : S) → P s → Returns P (f a s))
    → (xs : List A) (s : S) → P s
    → Returns P (for_each f xs s)
for_each-Returns P f keeps [] s p = (s, refl, p)
for_each-Returns P f keeps (x ∷ xs) s p =
    Returns-bind P P (f x s) (for_each f xs) (keeps x s p)
      (λ s' p'. for_each-Returns P f keeps xs s' p')
