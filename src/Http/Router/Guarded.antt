-- ===== src/Http/Router/Guarded.antt =====
-- Whom internal/delivery/http/router.go lets in.
use chatter_stack.Base.{
  String, ◌≡◌, refl, true, some, ◌⊎◌, inl, inr, arith, eqb, eq_iff, trim_space, Bool-cases,
}
use chatter_stack.Exec.{Result-cases}
use chatter_stack.Auth
use chatter_stack.Auth.Keys.{access_key}
use chatter_stack.Auth.Cache.{View, IsWorld}
use chatter_stack.Auth.Reliable.{IsReliable}
use chatter_stack.Auth.Session.{IsSession}
use chatter_stack.Auth.Progress.{access_is_accepted}
use chatter_stack.Middleware.Bearer.{authenticate, request_token}
use chatter_stack.Middleware.Access.{passed_is_stored}
use chatter_stack.Http.Request.{error, Request}
use chatter_stack.Http.Router.{Services, Call, is_protected, handle, admit, serve}

module _ {W : Type 0} {view : View W} (svc : Services W) (world : IsWorld view svc.auth) where
  -- With a cache and repositories that do what the authentication relies on, a route that is
  -- protected is answered as not allowed in, with 401, unless the token of the headers, trimmed,
  -- stands in the cache as an access token of some user. Then its handler runs for that user,
  -- after the token has been validated.
  pub protected_needs_token :
      (call : Call) (header alt : String) (r : Request) (w : W)
      → is_protected call ≡ true
      → ((serve svc call header alt r w).0.status ≡ 401)
        ⊎ ((id : String) × (view w (access_key (trim_space (request_token header alt))) ≡ some id)
            × (serve svc call header alt r w
                ≡ handle svc call
                    (record r { user_id = some id })
                    (Auth.validate_access_token svc.auth (request_token header alt) w).1))
  unfolding serve admit authenticate
  protected_needs_token call header alt r w p =
      let validate = Auth.validate_access_token svc.auth in
      elim (Bool-cases (eqb (request_token header alt) "")) [
        | inl e ↦ inl (rw (p, e) refl)
        | inr e ↦ elim (Result-cases (validate (request_token header alt) w).0) [
          | inr (x, f) ↦ inl (rw (p, e, f) refl)
          | inl (id, f) ↦
              let w1 = (validate (request_token header alt) w).1 in
              inr (
                id,
                passed_is_stored svc.auth world header alt id w w1 (rw (e, f) refl),
                rw (p, e, f) refl,
              )
        ]
      ]

pub blank_is_empty : (s : String) → eqb s "" ≡ true → trim_space s ≡ ""
unfolding trim_space
blank_is_empty s e = rw ((eq_iff s "").0 e) refl

module _ {W : Type 0} (svc : Services W) where
  -- Without a token in the headers a protected route does nothing, and says so with 401.
  pub no_token_no_effect :
      (call : Call) (header alt : String) (r : Request) (w : W)
      → is_protected call ≡ true
      → eqb (request_token header alt) "" ≡ true
      → serve svc call header alt r w
        ≡ (record { status = 401; body = error "missing bearer token" }, w)
  unfolding serve admit authenticate
  no_token_no_effect call header alt r w p e = rw (p, e) refl

  -- In a session, with a cache that loses nothing, a protected route with the access token of the
  -- session in its headers, spaces around it left out, runs its handler for the user of the
  -- session, and the session is still there when the handler starts.
  pub token_is_served :
      {view : View W} (reliable : IsReliable view svc.auth.cache) (call : Call)
      (header alt id : String) (pair : Auth.TokenPair) (r : Request) (w : W)
      → is_protected call ≡ true
      → trim_space (request_token header alt) ≡ pair.access_token
      → IsSession view id pair w
      → (w1 : W) × IsSession view id pair w1
        × (serve svc call header alt r w ≡ handle svc call (record r { user_id = some id }) w1)
  unfolding serve admit authenticate
  token_is_served reliable call header alt id pair r w p t x =
      let token = request_token header alt in
      let w1 = (Auth.validate_access_token svc.auth token w).1 in
      let (accepted, kept) = access_is_accepted svc.auth reliable token id pair w t x in
      elim (Bool-cases (eqb token "")) [
        | inl e ↦
            absurd (
              ground
                (arith, blank_is_empty token e, eq_iff pair.access_token "", t, x.access_named))
        | inr e ↦ (w1, kept, rw (p, e, accepted) refl)
      ]
