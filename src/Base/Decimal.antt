-- ===== src/Base/Decimal.antt =====
-- Go's `strconv.Atoi` over a 64-bit `int`.
use Prim.Native.Char.{Char, code}
use Prim.Native.String.{String}
use Prim.Native.Nat.{ℕ, ◌+◌, ◌-◌, ◌*◌}
use mathlib.Core.Path.{◌≡◌}
use mathlib.Core.Bool.{Bool, ◌&&◌}
use mathlib.Core.Option.{Option, none, some}
use native.Mathlib.Omega.{arith}
use chatter_stack.Base.Tests.{leb, ltb, ◌==◌, if◌then◌else◌}
use chatter_stack.Base.Int.{ℤ, pos, sub_ℕ, IsInt}

unfoldable pub is_digit : Char → Bool
is_digit c = leb 48 (code c) && leb (code c) 57

-- The number that digits spell behind `acc`; none if something else stands among them.
unfoldable pub spelled : ℕ → String → Option ℕ
unfolding is_digit
spelled acc String.[] = some acc
spelled acc (String.◌∷◌ c s) =
    let rest = spelled (acc * 10 + (code c - 48)) s in if is_digit c then rest else none

unfoldable pub digits_of : String → Option ℕ
unfolding spelled
digits_of String.[] = none
digits_of (String.◌∷◌ c s) = spelled 0 (String.◌∷◌ c s)

unfoldable pub positive : Option ℕ → Option ℤ
positive none = none
positive (some n) = if ltb n 9223372036854775808 then some (pos n) else none

negative : Option ℕ → Option ℤ
negative none = none
negative (some n) = if leb n 9223372036854775808 then some (sub_ℕ 0 n) else none

-- strconv.Atoi; none for an error
unfoldable pub atoi : String → Option ℤ
unfolding digits_of positive negative
atoi String.[] = none
atoi (String.◌∷◌ c s) =
    if code c == 45
    then negative (digits_of s)
    else if code c == 43
    then positive (digits_of s)
    else positive (digits_of (String.◌∷◌ c s))

positive-IsInt : (o : Option ℕ) (z : ℤ) → positive o ≡ some z → IsInt z
unfolding positive
positive-IsInt none z h = cc
positive-IsInt (some n) z h = ground arith

negative-IsInt : (o : Option ℕ) (z : ℤ) → negative o ≡ some z → IsInt z
unfolding negative
negative-IsInt none z h = cc
negative-IsInt (some n) z h = ground arith

-- What `Atoi` accepts fits an `int`.
pub atoi-IsInt : (s : String) (z : ℤ) → atoi s ≡ some z → IsInt z
unfolding atoi
atoi-IsInt String.[] z h = cc
atoi-IsInt (String.◌∷◌ c s) z h = ground (
  arith,
  positive-IsInt (digits_of s) z,
  negative-IsInt (digits_of s) z,
  positive-IsInt (digits_of (String.◌∷◌ c s)) z,
)
