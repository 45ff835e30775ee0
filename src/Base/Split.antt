-- ===== src/Base/Split.antt =====
-- Go's `strings.Split` at a separator of one character.
use Prim.Native.Char.{Char, code}
use Prim.Native.String.{String, [], ◌∷◌, ◌++◌}
use Prim.Native.Nat.{ℕ}
use text.Mathlib.TextLemmas.{cons-append, nil-append}
use mathlib.Core.Path.{◌≡◌, refl, ap, ◌∙◌}
use mathlib.Core.Bool.{Bool, true, false, not, ◌&&◌}
use mathlib.Core.List.{List}
use native.Mathlib.Omega.{arith}
use chatter_stack.Base.Tests.{◌==◌, if◌then◌else◌}

-- The text put before the first part of the rest.
before_first : String → List String → List String
before_first s List.[] = List.◌∷◌ s List.[]
before_first s (List.◌∷◌ p parts) = List.◌∷◌ (s ++ p) parts

-- The parts of a text between the characters with the code `k`.
unfoldable pub split_on : ℕ → String → List String
unfolding before_first
split_on k [] = List.◌∷◌ "" List.[]
split_on k (c ∷ s) =
    let rest = split_on k s in if code c == k then List.◌∷◌ "" rest else before_first (c ∷ "") rest

-- Whether no character of a text has the code `k`.
unfoldable pub has_none : ℕ → String → Bool
has_none k [] = true
has_none k (c ∷ s) = not (code c == k) && has_none k s

pub split_on-append :
    (k : ℕ) (d : Char) (s t : String)
    → (code d == k) ≡ true
    → has_none k s ≡ true
    → split_on k (s ++ ((d ∷ "") ++ t)) ≡ List.◌∷◌ s (split_on k t)
unfolding split_on has_none before_first
split_on-append k d [] t at h = rw (nil-append, cons-append, nil-append, at) refl
split_on-append k d (c ∷ s) t at h =
    let other : (code c == k) ≡ false = ground arith in
    rw cons-append (
      rw (other, split_on-append k d s t at (ground arith))
        (ap (λ x. List.◌∷◌ x (split_on k t)) (cons-append c "" s ∙ ap (λ x. c ∷ x) (nil-append s))))

pub split_on_of_none :
    (k : ℕ) (s : String) → has_none k s ≡ true → split_on k s ≡ List.◌∷◌ s List.[]
unfolding split_on has_none before_first
split_on_of_none k [] h = refl
split_on_of_none k (c ∷ s) h =
    let other : (code c == k) ≡ false = ground arith in
    rw (other, split_on_of_none k s (ground arith))
      (ap (λ x. List.◌∷◌ x List.[]) (cons-append c "" s ∙ ap (λ x. c ∷ x) (nil-append s)))
