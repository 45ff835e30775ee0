-- ===== src/Middleware/Access.antt =====
-- pkg/middleware/auth.go in front of the authentication service.
use chatter_stack.Base.{String, ◌≡◌, ap, arith, some, eqb, inl, inr, trim_space, Bool-cases}
use chatter_stack.Exec.{Result, ok, err}
use chatter_stack.Auth.{Service, validate_access_token}
use chatter_stack.Auth.Keys.{access_key}
use chatter_stack.Auth.Cache.{View, IsWorld}
use chatter_stack.Auth.Login.{validated_is_stored}
use chatter_stack.Middleware.Bearer.{Outcome, passed, request_token, authenticate, outcome_of}

outcome_of-passed : (r : Result String) (id : String) → outcome_of r ≡ passed id → r ≡ ok id
outcome_of-passed (ok x) id h = ground arith
outcome_of-passed (err e) id h = cc

stored :
    {W : Type 0} (id : String) (w : W) (r : Result String × W)
    → ◌≡◌ {A = Outcome × W} (outcome_of r.0, r.1) (passed id, w)
    → r ≡ (ok id, r.1)
stored id w r h = let e = outcome_of-passed r.0 id (ap (λ p. p.0) h) in ground arith

-- With a cache and repositories that do what the service relies on, a request is passed on for a
-- user only if the token of its headers, trimmed, stands in the cache as an access token of that
-- user.
pub passed_is_stored :
    {W : Type 0} {view : View W} (s : Service W) (world : IsWorld view s) (header alt id : String)
    (w w' : W)
    → authenticate (some (validate_access_token s)) header alt w ≡ (passed id, w')
    → view w (access_key (trim_space (request_token header alt))) ≡ some id
unfolding authenticate
passed_is_stored s world header alt id w w' h =
    let token = request_token header alt in
    elim (Bool-cases (eqb token "")) [
      | inl e ↦ absurd (ground (arith, rw e at h))
      | inr e ↦
          validated_is_stored s world token id w (validate_access_token s token w).1
            (stored id w' (validate_access_token s token w) (rw e at h))
    ]
