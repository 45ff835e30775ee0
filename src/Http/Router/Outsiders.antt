-- ===== src/Http/Router/Outsiders.antt =====
-- What the routes of internal/delivery/http/router.go let be done without a token.
use chatter_stack.Base.{
  String, ap, ◌≡◌, refl, ◌∙◌, sym, false, some, arith, inl, inr, eqb, eq_iff, trim_space,
  Bool-cases,
}
use chatter_stack.Errors.{auth, invalid_refresh_token, invalid_access_token}
use chatter_stack.Exec.{err}
use chatter_stack.Auth
use chatter_stack.Auth.{is_blank, invalidate_session}
use chatter_stack.Auth.Cache.{View, Keeps}
use chatter_stack.Auth.Reliable.{IsReliable}
use chatter_stack.Auth.Session.{IsQuiet, IsWorking, IsSession, logout_revokes, logout_ends}
use chatter_stack.Http.AuthHandler
use chatter_stack.Http.Router.Guarded.{blank_is_empty}
use chatter_stack.Http.Request.{empty, Request}
use chatter_stack.Http.Router.{Services, Call, handle, serve}

module _ {W : Type 0} {view : View W} (svc : Services W) (reliable : IsReliable view svc.auth.cache)
    (quiet : IsQuiet view svc.auth) (working : IsWorking svc.auth) where
  -- A request to log out needs no token: whatever its headers are, with a cache that loses
  -- nothing and services that work it ends the session of the user that its body names, and is
  -- answered with 204. The tokens of that session, spaces around them left out, are refused right
  -- after it, and in every later world whose cache has no entries but those that are left then.
  pub logout_needs_no_token :
      (raw header alt refresh_token access_token : String) (pair : Auth.TokenPair) (r : Request)
      (w w' : W)
      → is_blank raw ≡ false
      → IsSession view (trim_space raw) pair w
      → trim_space refresh_token ≡ pair.refresh_token
      → trim_space access_token ≡ pair.access_token
      → Keeps view (serve svc (Call.logout (some raw)) header alt r w).1 w'
      → ((serve svc (Call.logout (some raw)) header alt r w).0
          ≡ record { status = 204; body = empty })
        × ((Auth.refresh svc.auth refresh_token w').0 ≡ err (auth invalid_refresh_token))
        × ((Auth.validate_access_token svc.auth access_token w').0
            ≡ err (auth invalid_access_token))
  unfolding serve handle AuthHandler.logout
  logout_needs_no_token raw header alt refresh_token access_token pair r w w' b x t t' later =
      elim (Bool-cases (eqb raw "")) [
        | inl e ↦ absurd (ground (arith, blank_is_empty raw e, eq_iff (trim_space raw) ""))
        | inr e ↦
            let done = logout_ends svc.auth reliable working raw w b in
            let (h1, h2) =
              logout_revokes svc.auth reliable quiet raw refresh_token access_token w w' b
                (x.active ∙ ap some (sym t)) (x.access_active ∙ ap some (sym t')) (rw e at later) in
            rw (e, done) (refl, h1, h2)
      ]
