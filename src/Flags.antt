-- ===== src/Flags.antt =====
-- Rune/include/rune/utility/enum_class_flags.hpp: the operators on flags, for an enumeration over a
-- byte, which is what the header's macro was written for. A value is its byte.
use Prim.Native.Nat.{bit_and, bit_or, bit_xor}
use rune_old.Base.{ℕ, zero, suc, ◌-◌, ◌<◌, ◌≡◌, refl, Bool, true, ◌&&◌, ◌==◌, ==_iff, arith}

unfoldable pub or_flags : ℕ → ℕ → ℕ
or_flags lhs rhs = bit_or lhs rhs

unfoldable pub and_flags : ℕ → ℕ → ℕ
and_flags lhs rhs = bit_and lhs rhs

unfoldable pub xor_flags : ℕ → ℕ → ℕ
xor_flags lhs rhs = bit_xor lhs rhs

unfoldable pub not_flags : ℕ → ℕ
not_flags e = 255 - e

-- The compound operators take their left operand twice.
unfoldable pub or_assign : ℕ → ℕ → ℕ
or_assign lhs rhs = bit_or lhs lhs

unfoldable pub and_assign : ℕ → ℕ → ℕ
and_assign lhs rhs = bit_and lhs lhs

unfoldable pub xor_assign : ℕ → ℕ → ℕ
xor_assign lhs rhs = bit_xor lhs lhs

every_below : ℕ → (ℕ → Bool) → Bool
every_below zero p = true
every_below (suc n) p = p n && every_below n p

every_byte_at : (n : ℕ) (p : ℕ → Bool) (x : ℕ) → every_below n p ≡ true → x < n → p x ≡ true
unfolding every_below
every_byte_at zero p x h lt = absurd (omega arith)
every_byte_at (suc n) p x h lt = ground (arith, every_byte_at n p x)

or_table : every_below 256 (λ x. bit_or x x == x) ≡ true
unfolding every_below
or_table = refl

and_table : every_below 256 (λ x. bit_and x x == x) ≡ true
unfolding every_below
and_table = refl

xor_table : every_below 256 (λ x. bit_xor x x == 0) ≡ true
unfolding every_below
xor_table = refl

-- Whatever the right operand is, `|=` and `&=` leave a byte as it is, and `^=` clears it.
assign_ignores :
    (lhs rhs : ℕ)
    → lhs < 256
    → (or_assign lhs rhs ≡ lhs) × (and_assign lhs rhs ≡ lhs) × (xor_assign lhs rhs ≡ 0)
unfolding or_assign and_assign xor_assign
assign_ignores lhs rhs h = (
  (==_iff _ lhs).0 (every_byte_at 256 _ lhs or_table h),
  (==_iff _ lhs).0 (every_byte_at 256 _ lhs and_table h),
  (==_iff _ 0).0 (every_byte_at 256 _ lhs xor_table h),
)
