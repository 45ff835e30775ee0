-- ===== src/Auth/Keys.antt =====
-- The cache keys of internal/domain/auth/service_impl.go: keys of different kinds never meet, and
-- a key tells what it was made of.
use Prim.Native.Char.{code}
use Prim.Native.String.{String, [], ◌∷◌, ◌++◌}
use mathlib.Core.Path.{◌≡◌, refl, ap}
use mathlib.Core.Logic.{◌≢◌}
use text.Mathlib.TextLemmas.{cons-append, append_cancel_left}
use chatter_stack.Base.{ℕ, zero, suc, arith}

unfoldable pub session_key : String → String
session_key user_id = "auth:session:" ++ user_id

unfoldable pub access_key : String → String
access_key token = "auth:access:" ++ token

unfoldable pub access_session_key : String → String
access_session_key user_id = "auth:access-session:" ++ user_id

unfoldable pub refresh_key : String → String
refresh_key token = "auth:refresh:" ++ token

pub session_key_inj : (a b : String) → session_key a ≡ session_key b → a ≡ b
unfolding session_key
session_key_inj a b e = append_cancel_left "auth:session:" a b e

pub access_key_inj : (a b : String) → access_key a ≡ access_key b → a ≡ b
unfolding access_key
access_key_inj a b e = append_cancel_left "auth:access:" a b e

pub access_session_key_inj : (a b : String) → access_session_key a ≡ access_session_key b → a ≡ b
unfolding access_session_key
access_session_key_inj a b e = append_cancel_left "auth:access-session:" a b e

pub refresh_key_inj : (a b : String) → refresh_key a ≡ refresh_key b → a ≡ b
unfolding refresh_key
refresh_key_inj a b e = append_cancel_left "auth:refresh:" a b e

-- The code point at a position, to tell two keys apart.
code_at : ℕ → String → ℕ
code_at i [] = 0
code_at zero (c ∷ s) = code c
code_at (suc i) (c ∷ s) = code_at i s

code_at-append : (i : ℕ) (s t : String) (n : ℕ) → code_at i s ≡ suc n → code_at i (s ++ t) ≡ suc n
unfolding code_at
code_at-append i [] t n h = absurd (omega (arith, h))
code_at-append zero (c ∷ s) t n h = rw cons-append h
code_at-append (suc i) (c ∷ s) t n h = rw cons-append (code_at-append i s t n h)

-- Two texts that differ at a position that lies in what they begin with.
apart :
    (i m n : ℕ) (p q a b : String)
    → code_at i p ≡ suc m
    → code_at i q ≡ suc n
    → m ≢ n
    → p ++ a ≢ q ++ b
apart i m n p q a b hp hq d e =
    d (omega (arith, code_at-append i p a m hp, code_at-append i q b n hq, ap (code_at i) e))

pub session-ne-refresh : (a b : String) → session_key a ≢ refresh_key b
unfolding session_key refresh_key code_at
session-ne-refresh a b = apart 5 114 113 "auth:session:" "auth:refresh:" a b refl refl (omega arith)

pub session-ne-access : (a b : String) → session_key a ≢ access_key b
unfolding session_key access_key code_at
session-ne-access a b = apart 5 114 96 "auth:session:" "auth:access:" a b refl refl (omega arith)

pub session-ne-access_session : (a b : String) → session_key a ≢ access_session_key b
unfolding session_key access_session_key code_at
session-ne-access_session a b =
    apart 5 114 96 "auth:session:" "auth:access-session:" a b refl refl (omega arith)

pub refresh-ne-access : (a b : String) → refresh_key a ≢ access_key b
unfolding refresh_key access_key code_at
refresh-ne-access a b = apart 5 113 96 "auth:refresh:" "auth:access:" a b refl refl (omega arith)

pub refresh-ne-access_session : (a b : String) → refresh_key a ≢ access_session_key b
unfolding refresh_key access_session_key code_at
refresh-ne-access_session a b =
    apart 5 113 96 "auth:refresh:" "auth:access-session:" a b refl refl (omega arith)

pub access-ne-access_session : (a b : String) → access_key a ≢ access_session_key b
unfolding access_key access_session_key code_at
access-ne-access_session a b =
    apart 11 57 44 "auth:access:" "auth:access-session:" a b refl refl (omega arith)
