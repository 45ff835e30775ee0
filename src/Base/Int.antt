-- ===== src/Base/Int.antt =====
-- Go's `int`: integers over the native numbers, and the wrap-around of its 64 bits.
use Prim.Native.Nat.{ℕ, suc, ◌+◌, ◌-◌, ◌*◌, ◌/◌, ◌%◌, ◌<◌}
use mathlib.Core.Path.{◌≡◌}
use mathlib.Core.Bool.{Bool}
use native.Mathlib.Omega.{arith}
use chatter_stack.Base.Tests.{ltb, leb, if◌then◌else◌}

-- `negsuc n` is -(n + 1).
pub data ℤ : Type 0 where
  pos : ℕ → ℤ
  negsuc : ℕ → ℤ

abbrev pub pos_part : ℤ → ℕ
pos_part (pos n) = n
pos_part (negsuc n) = 0

abbrev pub neg_part : ℤ → ℕ
neg_part (pos n) = 0
neg_part (negsuc n) = suc n

-- a - b, as an integer.
abbrev pub sub_ℕ : ℕ → ℕ → ℤ
sub_ℕ a b = if leb b a then pos (a - b) else negsuc (b - a - 1)

infixl 65 ◌-ℤ◌
infixl 70 ◌*ℤ◌
unfoldable pub ◌-ℤ◌ : ℤ → ℤ → ℤ
a -ℤ b = sub_ℕ (pos_part a + neg_part b) (neg_part a + pos_part b)

unfoldable pub ◌*ℤ◌ : ℤ → ℤ → ℤ
a *ℤ b =
    sub_ℕ (pos_part a * pos_part b + neg_part a * neg_part b)
      (pos_part a * neg_part b + neg_part a * pos_part b)

abbrev pub leb_ℤ : ℤ → ℤ → Bool
leb_ℤ a b = leb (pos_part a + neg_part b) (pos_part b + neg_part a)

abbrev pub ltb_ℤ : ℤ → ℤ → Bool
ltb_ℤ a b = ltb (pos_part a + neg_part b) (pos_part b + neg_part a)

-- The integer that 64 bits of two's complement stand for.
abbrev of_word : ℕ → ℤ
of_word w = if ltb w 9223372036854775808 then pos w else negsuc (18446744073709551615 - w)

-- What `int` keeps of an integer: the residue modulo 2^64, read as a signed number.
unfoldable pub wrap : ℤ → ℤ
wrap (pos n) = of_word (n % 18446744073709551616)
wrap (negsuc n) = of_word (18446744073709551615 - n % 18446744073709551616)

-- Go's `/` truncates toward zero.
unfoldable pub half : ℤ → ℤ
half (pos n) = pos (n / 2)
half (negsuc n) = sub_ℕ 0 (suc n / 2)

-- The range of `int`.
abbrev pub IsInt : ℤ → Type 0
IsInt (pos n) = n < 9223372036854775808
IsInt (negsuc n) = n < 9223372036854775808

pub wrap_of_IsInt : (z : ℤ) → IsInt z → wrap z ≡ z
unfolding wrap
wrap_of_IsInt (pos n) h = ground arith
wrap_of_IsInt (negsuc n) h = ground arith

pub wrap-IsInt : (z : ℤ) → IsInt (wrap z)
unfolding wrap
wrap-IsInt (pos n) = ground arith
wrap-IsInt (negsuc n) = ground arith
