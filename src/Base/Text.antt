-- ===== src/Base/Text.antt =====
-- Go's `strings` over texts as sequences of code points: `TrimSpace`, `ToLower`, the white space
-- of `unicode.IsSpace`.
use Prim.Native.Nat.{ℕ, Ordering, compare as compare_ℕ}
use Prim.Native.String.compare
use Prim.Native.String.{compare, then as and_then}
use Prim.Native.Char.{Char, code}
use Prim.Native.String.{String, [], ◌∷◌}
use mathlib.Core.Path.{◌≡◌, refl, ap, ap₂, ◌∙◌}
use mathlib.Core.Logic.{◌≢◌, inl, inr}
use text.Mathlib.Text.{is_lt, ◌==◌ as eqb}
use text.Mathlib.TextEquality.{eq_iff}
use text.Mathlib.TextLemmas.{cons≢nil}
use native.Mathlib.Omega.{arith}
use mathlib.Core.Bool.{not, Bool, false, ◌&&◌, ◌||◌}
use chatter_stack.Base.Tests.{leb, ◌==◌, if◌then◌else◌, eqb-false, Bool-cases}

-- `unicode.IsSpace`: the six ASCII spaces, U+0085, U+00A0 and the class White_Space above Latin-1.
unfoldable pub is_space : ℕ → Bool
is_space c =
    (leb 9 c && leb c 13)
    || c == 32
    || c == 0x85
    || c == 0xa0
    || c == 0x1680
    || (leb 0x2000 c && leb c 0x200a)
    || c == 0x2028
    || c == 0x2029
    || c == 0x202f
    || c == 0x205f
    || c == 0x3000

unfoldable pub trim_left : String → String
unfolding is_space
trim_left [] = []
trim_left (c ∷ s) = if is_space (code c) then trim_left s else c ∷ s

-- One character in front of a text that is trimmed on the right.
cons_trimmed : Char → String → String
unfolding is_space
cons_trimmed c [] = if is_space (code c) then [] else c ∷ []
cons_trimmed c (d ∷ s) = c ∷ d ∷ s

unfoldable pub trim_right : String → String
unfolding cons_trimmed
trim_right [] = []
trim_right (c ∷ s) = cons_trimmed c (trim_right s)

-- strings.TrimSpace
unfoldable pub trim_space : String → String
unfolding trim_left trim_right
trim_space s = trim_right (trim_left s)

-- Without white space at its front and at its end.
abbrev pub StartsInk : String → Type 0
StartsInk [] = Unit
StartsInk (c ∷ s) = is_space (code c) ≡ false

trim_left-StartsInk : (s : String) → StartsInk (trim_left s)
unfolding trim_left
trim_left-StartsInk [] = tt
trim_left-StartsInk (c ∷ s) = elim (Bool-cases (is_space (code c))) [
  | inl e ↦ rw e (trim_left-StartsInk s)
  | inr e ↦ rw e e
]

trim_left_of_StartsInk : (s : String) → StartsInk s → trim_left s ≡ s
unfolding trim_left
trim_left_of_StartsInk [] h = refl
trim_left_of_StartsInk (c ∷ s) h = rw h

cons_trimmed-StartsInk : (c : Char) (t : String) → StartsInk (c ∷ t) → StartsInk (cons_trimmed c t)
unfolding cons_trimmed
cons_trimmed-StartsInk c [] h = rw h h
cons_trimmed-StartsInk c (d ∷ t) h = h

trim_right-StartsInk : (s : String) → StartsInk s → StartsInk (trim_right s)
trim_right-StartsInk [] h = unfold trim_right in tt
trim_right-StartsInk (c ∷ s) h = unfold trim_right in cons_trimmed-StartsInk c (trim_right s) h

trim_right-cons_trimmed :
    (c : Char) (t : String) → trim_right t ≡ t → trim_right (cons_trimmed c t) ≡ cons_trimmed c t
unfolding trim_right
trim_right-cons_trimmed c [] h = elim (Bool-cases (is_space (code c))) [
  | inl e ↦ rw e
  | inr e ↦ rw (e, e)
]
trim_right-cons_trimmed c (d ∷ t) h = ap (cons_trimmed c) h

trim_right_idem : (s : String) → trim_right (trim_right s) ≡ trim_right s
unfolding trim_right
trim_right_idem [] = refl
trim_right_idem (c ∷ s) = trim_right-cons_trimmed c (trim_right s) (trim_right_idem s)

-- Trimming a second time changes nothing.
pub trim_space_idem : (s : String) → trim_space (trim_space s) ≡ trim_space s
trim_space_idem s =
    let inked = trim_right-StartsInk (trim_left s) (trim_left-StartsInk s) in
    unfold trim_space in
    rw (trim_left_of_StartsInk (trim_right (trim_left s)) inked) (trim_right_idem (trim_left s))

cons_trimmed-ne-nil :
    (c : Char) (t : String) → is_space (code c) ≡ false → eqb (cons_trimmed c t) "" ≡ false
unfolding cons_trimmed
cons_trimmed-ne-nil c [] h = rw h (eqb-false (c ∷ []) "" (λ e. cons≢nil e))
cons_trimmed-ne-nil c (d ∷ t) h = eqb-false (c ∷ d ∷ t) "" (λ e. cons≢nil e)

-- A text that begins with a character other than white space is not blank.
pub trim_space_of_ink :
    (c : Char) (s : String) → is_space (code c) ≡ false → eqb (trim_space (c ∷ s)) "" ≡ false
unfolding trim_space
trim_space_of_ink c s h = rw h (cons_trimmed-ne-nil c (trim_right s) h)

-- Go's `<` on strings: the order of the code points, as of their UTF-8 bytes.
abbrev pub less : String → String → Bool
less s t = is_lt (compare s t)

abbrev flip : Ordering → Ordering
flip Ordering.lt = Ordering.gt
flip Ordering.eq = Ordering.eq
flip Ordering.gt = Ordering.lt

flip-compare_ℕ : (m n : ℕ) → flip (compare_ℕ m n) ≡ compare_ℕ n m
flip-compare_ℕ m n = ground arith

flip-then : (o p : Ordering) → flip (and_then o p) ≡ and_then (flip o) (flip p)
flip-then Ordering.lt p = refl
flip-then Ordering.eq p = refl
flip-then Ordering.gt p = refl

flip-compare : (s t : String) → flip (compare s t) ≡ compare t s
flip-compare [] [] = refl
flip-compare [] (d ∷ t) = rw (compare.nil-cons d t, compare.cons-nil d t)
flip-compare (c ∷ s) [] = rw (compare.nil-cons c s, compare.cons-nil c s)
flip-compare (c ∷ s) (d ∷ t) =
    rw (compare.cons-cons c d s t, compare.cons-cons d c t s)
      (flip-then (compare_ℕ (code c) (code d)) (compare s t)
        ∙ ap₂ and_then (flip-compare_ℕ (code c) (code d)) (flip-compare s t))

-- Of two different texts exactly one is the smaller.
pub less_swap : (s t : String) → s ≢ t → less t s ≡ not (less s t)
less_swap s t h = ground (arith, eq_iff s t, flip-compare s t)
