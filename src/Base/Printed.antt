-- ===== src/Base/Printed.antt =====
-- Go's verb `%d` for an `int` that is not negative, and that `strconv.Atoi` reads it back.
use Prim.Native.Char.{Char, char, code, IsScalar}
use Prim.Native.String.{String}
use Prim.Native.Nat.{ℕ, Ordering, compare, zero, suc, ◌+◌, ◌-◌, ◌*◌, ◌/◌, ◌%◌, ◌^◌, ◌<◌}
use mathlib.Core.Path.{◌≡◌, refl, ap, ◌∙◌}
use mathlib.Core.Bool.{true, false}
use mathlib.Core.Option.{some}
use mathlib.Core.Logic.{inl, inr}
use native.Mathlib.Omega.{arith}
use native.Mathlib.Numerals.{unary_clauses}
use chatter_stack.Base.Tests.{leb, ltb, ◌==◌, if◌then◌else◌, Bool-cases}
use chatter_stack.Base.Int.{pos}
use chatter_stack.Base.Decimal.{spelled, is_digit, digits_of, positive, atoi}

pub ascii : (n : ℕ) → n < 128 → IsScalar n
ascii n h = let e : compare n 55296 ≡ Ordering.lt = ground arith in rw e tt

-- The digit of a number below ten.
unfoldable pub digit : ℕ → Char
digit n = char (48 + n % 10) (ascii (48 + n % 10) (omega arith))

-- The digits of a number in front of `s`, of at most `fuel` of them.
unfoldable pub digits : ℕ → ℕ → String → String
unfolding digit
digits zero n s = s
digits (suc fuel) n s =
    let rest = digits fuel (n / 10) (String.◌∷◌ (digit (n % 10)) s) in
    if ltb n 10 then String.◌∷◌ (digit n) s else rest

-- An `int` has at most 19 digits.
unfoldable pub itoa : ℕ → String
unfolding digits
itoa n = digits 19 n ""

-- One more digit behind those of `acc`.
spelled-digit :
    (acc n : ℕ) (s : String) → spelled acc (String.◌∷◌ (digit n) s) ≡ spelled (acc * 10 + n % 10) s
unfolding spelled is_digit digit
spelled-digit acc n s =
    let below : leb 48 (48 + n % 10) ≡ true = ground arith in
    let above : leb (48 + n % 10) 57 ≡ true = ground arith in
    let value : acc * 10 + (48 + n % 10 - 48) ≡ acc * 10 + n % 10 = omega arith in
    rw (below, above, value) refl

-- What the digits of `n` spell goes on from `n`.
spelled-digits :
    (fuel n : ℕ) (s : String) → n < 10 ^ fuel → spelled 0 (digits fuel n s) ≡ spelled n s
unfolding digits
spelled-digits zero n s h = let e : 0 ≡ n = omega arith in ap (λ k. spelled k s) e
spelled-digits (suc fuel) n s h = elim (Bool-cases (ltb n 10)) [
  | inl e ↦
      let value : 0 * 10 + n % 10 ≡ n = ground arith in
      rw e (spelled-digit 0 n s ∙ ap (λ k. spelled k s) value)
  | inr e ↦
      let fits : n / 10 < 10 ^ fuel = let h1 = simp unary_clauses at h in omega arith in
      let value : n / 10 * 10 + n % 10 % 10 ≡ n = omega arith in
      rw e (
        spelled-digits fuel (n / 10) (String.◌∷◌ (digit (n % 10)) s) fits
        ∙ spelled-digit (n / 10) (n % 10) s
        ∙ ap (λ k. spelled k s) value)
]

digit-is_digit : (n : ℕ) → is_digit (digit n) ≡ true
unfolding is_digit digit
digit-is_digit n = ground arith

-- The first of the digits is a digit: neither a sign nor the end.
StartsDigit : String → Type 0
unfolding is_digit
StartsDigit String.[] = ⊥
StartsDigit (String.◌∷◌ c s) = is_digit c ≡ true

digits-StartsDigit : (fuel n : ℕ) (s : String) → StartsDigit s → StartsDigit (digits fuel n s)
unfolding digits StartsDigit
digits-StartsDigit zero n s h = h
digits-StartsDigit (suc fuel) n s h = elim (Bool-cases (ltb n 10)) [
  | inl e ↦ rw e (digit-is_digit n)
  | inr e ↦
      rw e
        (digits-StartsDigit fuel (n / 10) (String.◌∷◌ (digit (n % 10)) s) (digit-is_digit (n % 10)))
]

-- At least one digit is written.
some_digits-StartsDigit : (fuel n : ℕ) → StartsDigit (digits (suc fuel) n "")
unfolding digits StartsDigit
some_digits-StartsDigit fuel n = elim (Bool-cases (ltb n 10)) [
  | inl e ↦ rw e (digit-is_digit n)
  | inr e ↦
      rw e (
        digits-StartsDigit fuel (n / 10) (String.◌∷◌ (digit (n % 10)) "") (digit-is_digit (n % 10)))
]

atoi_of_digits :
    (s : String) (n : ℕ)
    → StartsDigit s
    → spelled 0 s ≡ some n
    → n < 9223372036854775808
    → atoi s ≡ some (pos n)
unfolding atoi digits_of positive StartsDigit is_digit
atoi_of_digits String.[] n h e b = absurd h
atoi_of_digits (String.◌∷◌ c s) n h e b =
    let no_minus : (code c == 45) ≡ false = ground arith in
    let no_plus : (code c == 43) ≡ false = ground arith in
    let small : ltb n 9223372036854775808 ≡ true = ground arith in
    rw (no_minus, no_plus, e, small) refl

pub atoi-itoa : (n : ℕ) → n < 9223372036854775808 → atoi (itoa n) ≡ some (pos n)
atoi-itoa n h =
    atoi_of_digits (itoa n) n (unfold itoa in some_digits-StartsDigit 18 n)
      (unfold itoa spelled in spelled-digits 19 n "" (omega arith)) h
