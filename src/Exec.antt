-- ===== src/Exec.antt =====
-- Code that calls outside services and may fail. The world `W` is all that the calls can read and
-- change; what was done before an error stays done, so the world comes back beside the error too.
use chatter_stack.Base.{Bool, true, false, List, [], ◌∷◌, ◌≡◌, refl, ◌⊎◌, inl, inr}
use chatter_stack.Errors.{Error}

pub data Result {ℓ} (A : Type ℓ) : Type ℓ where
  ok : A → Result A
  err : Error → Result A

abbrev pub Exec : Type 0 → Type 0 → Type 0
Exec W A = W → Result A × W

-- How a function goes on from the result of a call.
abbrev pub continue : {W A B : Type 0} → Result A → (A → Exec W B) → Exec W B
continue (ok a) f w = f a w
continue (err e) f w = (err e, w)

abbrev pub map_error : {A : Type 0} → (Error → Error) → Result A → Result A
map_error f (ok a) = ok a
map_error f (err e) = err (f e)

abbrev pub map_result : {A B : Type 0} → (A → B) → Result A → Result B
map_result f (ok a) = ok (f a)
map_result f (err e) = err e

module _ {W A : Type 0} where
  abbrev pub pure : A → Exec W A
  pure a w = (ok a, w)

  abbrev pub fail : Error → Exec W A
  fail e w = (err e, w)

  -- `if err != nil { return f(err) }` after a call.
  abbrev pub map_err : (Error → Error) → Exec W A → Exec W A
  map_err f m w = (map_error f (m w).0, (m w).1)

  -- `_ = m`: the result is dropped, what was done stays.
  abbrev pub ignore : Exec W A → Exec W (Unit {0})
  ignore m w = (ok tt, (m w).1)

  -- The result, error or not, as a value to look at.
  abbrev pub try : Exec W A → Exec W (Result A)
  try m w = (ok (m w).0, (m w).1)

module _ {W A B : Type 0} where
  infixl 10 ◌>>=◌ ◌>>◌
  abbrev pub ◌>>=◌ : Exec W A → (A → Exec W B) → Exec W B
  ◌>>=◌ m f w = continue (m w).0 f (m w).1

  abbrev pub ◌>>◌ : Exec W A → Exec W B → Exec W B
  m >> n = m >>= λ _. n

-- `if test { return err }`
abbrev pub refuse : {W : Type 0} → Bool → Error → Exec W (Unit {0})
refuse true e = fail e
refuse false e = pure tt

-- A call that a function makes for each element; the first error ends it.
abbrev pub each : {W A : Type 0} → (A → Exec W (Unit {0})) → List A → Exec W (Unit {0})
each f [] = pure tt
each f (x ∷ xs) = f x >> each f xs

pub Result-cases {ℓ} :
    {A : Type ℓ} (r : Result A) → ((a : A) × (r ≡ ok a)) ⊎ ((e : Error) × (r ≡ err e))
Result-cases (ok a) = inl (a, refl)
Result-cases (err e) = inr (e, refl)

pub continue-ok :
    {W A B : Type 0} (r : Result A) (f : A → Exec W B) (w : W) {b : B} {w' : W}
    → continue r f w ≡ (ok b, w')
    → (a : A) × (r ≡ ok a) × (f a w ≡ (ok b, w'))
continue-ok (ok a) f w h = (a, refl, h)
continue-ok (err e) f w h = cc

-- Inversion of a successful bind.
pub >>=-ok :
    {W A B : Type 0} (m : Exec W A) (f : A → Exec W B) (w : W) {b : B} {w' : W}
    → (m >>= f) w ≡ (ok b, w')
    → (a : A) × ((m w).0 ≡ ok a) × (f a (m w).1 ≡ (ok b, w'))
>>=-ok m f w h = continue-ok (m w).0 f (m w).1 h

pub map_error-ok :
    {A : Type 0} (f : Error → Error) (r : Result A) {a : A} → map_error f r ≡ ok a → r ≡ ok a
map_error-ok f (ok b) h = h
map_error-ok f (err e) h = cc

-- Inversion of a successful bind whose first part is a guard.
pub after_refuse :
    {W A : Type 0} (b : Bool) (e : Error) (f : Unit {0} → Exec W A) (w : W) {a : A} {w' : W}
    → (refuse b e >>= f) w ≡ (ok a, w')
    → (b ≡ false) × (f tt w ≡ (ok a, w'))
after_refuse true e f w h = cc
after_refuse false e f w h = (refl, h)
