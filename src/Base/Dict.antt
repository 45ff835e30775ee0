-- ===== src/Base/Dict.antt =====
-- Go maps with text keys, as association lists that hold a key once. The order of the entries is
-- no part of what the laws below say.
use Prim.Native.String.{String}
use mathlib.Core.Path.{◌≡◌}
use mathlib.Core.Option.{Option, none, some}
use mathlib.Core.List.{List, [], ◌∷◌}
use native.Mathlib.Omega.{arith}
use text.Mathlib.Text.{◌==◌ as eqb}
use text.Mathlib.TextEquality.{eq_iff}
use chatter_stack.Base.Tests.{if◌then◌else◌}

abbrev pub Dict {ℓ} : Type ℓ → Type ℓ
Dict V = List (String × V)

module _ {ℓ} {V : Type ℓ} where
  -- `v, ok := m[k]`
  unfoldable pub get : String → Dict V → Option V
  get k [] = none
  get k ((j, v) ∷ m) = if eqb j k then some v else get k m

  -- `delete(m, k)`
  unfoldable pub remove : String → Dict V → Dict V
  remove k [] = []
  remove k ((j, v) ∷ m) = let rest = remove k m in if eqb j k then rest else (j, v) ∷ rest

  -- `m[k] = v`
  unfoldable pub put : String → V → Dict V → Dict V
  unfolding remove
  put k v m = (k, v) ∷ remove k m

  pub get-remove :
      (k j : String) (m : Dict V) → get j (remove k m) ≡ (if eqb k j then none else get j m)
  unfolding get remove
  get-remove k j [] = ground arith
  get-remove k j ((i, v) ∷ m) = ground (arith, get-remove k j m, eq_iff i k, eq_iff i j, eq_iff k j)

  pub get-put :
      (k j : String) (v : V) (m : Dict V)
      → get j (put k v m) ≡ (if eqb k j then some v else get j m)
  unfolding get put
  get-put k j v m = ground (arith, get-remove k j m)
