-- ===== src/YamlConversions.antt =====
-- Rune/src/utility/yaml-conversions.hpp: vectors in YAML files. A scalar is its text; how a float is
-- printed and read is a parameter.
use rune_old.Base.{
  ◌≡◌, refl, Option, none, some, List, [], ◌∷◌, Bytes, Outcome, ok, ◌>>=◌, or_fault,
  exception_thrown,
}

-- A node, as far as the conversion looks at it: a sequence of scalars, or anything else.
pub data Node : Type 0 where
  sequence : List Bytes → Node
  other : Node

module _ {F : Type 0} (print : F → Bytes) (read : Bytes → Option F) where
  unfoldable pub encode : F × F × F → Node
  encode (x, y, z) = sequence (print x ∷ print y ∷ print z ∷ [])

  -- `none` is the result false; a scalar that is no float throws.
  unfoldable pub decode : Node → Outcome (Option (F × F × F))
  decode (sequence (a ∷ b ∷ c ∷ [])) = do
    x ← or_fault (read a) exception_thrown
    y ← or_fault (read b) exception_thrown
    z ← or_fault (read c) exception_thrown
    ok (some (x, y, z))
  decode node = ok none

  -- A vector is read as it was written, where floats are.
  decode-encode :
      (v : F × F × F) → ((x : F) → read (print x) ≡ some x) → decode (encode v) ≡ ok (some v)
  unfolding encode decode
  decode-encode (x, y, z) h = rw (h x, h y, h z) refl
