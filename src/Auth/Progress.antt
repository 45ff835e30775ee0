-- ===== src/Auth/Progress.antt =====
-- When `Login`, `ValidateAccessToken` and `Refresh` of internal/domain/auth/service_impl.go succeed,
-- with a cache that loses nothing and services that work.
use Prim.Native.String.{len}
use text.Mathlib.TextPositions.{len-append}
use chatter_stack.Base.{
  ℕ, suc, ap, String, cat, ◌≡◌, refl, sym, ◌∙◌, false, arith, eqb, eqb-false, eq_refl, trim_space,
}
use chatter_stack.Exec.{ok}
use chatter_stack.Models.{User, status_online}
use chatter_stack.Utils.{generate_opaque_token, encode_base64, compare_hash_and_password}
use chatter_stack.Auth.{
  Service, TokenPair, issue_tokens, invalidate_session, start_session, mark, login, refresh,
  validate_access_token, normalize_email,
}
use chatter_stack.Auth.Keys.{
  session_key, access_key, access_session_key, refresh_key, session-ne-access,
  session-ne-access_session, refresh-ne-access, refresh-ne-access_session, access-ne-access_session,
}
use chatter_stack.Auth.Cache.{View}
use chatter_stack.Auth.Reliable.{IsReliable, invalidate_session-IsEnded}
use chatter_stack.Auth.Session.{
  IsQuiet, IsWorking, IsSession, set_here, set_there, same-IsSession, store_tokens-IsSession,
}

-- A text that begins with another that is not empty is not empty.
named : (p t : String) (n : ℕ) → len p ≡ suc n → eqb (cat p t) "" ≡ false
named p t n h =
    eqb-false (cat p t) ""
      λ e. let empty : len "" ≡ 0 = refl in omega (arith, h, empty, len-append p t, ap len e)

module _ {W : Type 0} {view : View W} (s : Service W) (reliable : IsReliable view s.cache) where
  open s use {cache}

  -- In a session, with a cache that loses nothing, the access token is accepted for the user of the
  -- session, spaces around it left out, and the session goes on with the same tokens.
  pub access_is_accepted :
      (raw id : String) (pair : TokenPair) (w : W)
      → trim_space raw ≡ pair.access_token
      → IsSession view id pair w
      → ((validate_access_token s raw w).0 ≡ ok id)
        × IsSession view id pair (validate_access_token s raw w).1
  unfolding validate_access_token
  access_is_accepted raw id pair w t x =
      let token = pair.access_token in
      let k = access_key token in
      let l = access_session_key id in
      let w1 = (cache.get k w).1 in
      let w2 = (cache.set k id s.access_ttl w1).1 in
      let w3 = (cache.set l token s.access_ttl w2).1 in
      let same = reliable.get_view k w in
      rw
        (
          t,
          x.access_named,
          reliable.get k w,
          x.access,
          reliable.set k id s.access_ttl w1,
          reliable.set l token s.access_ttl w2,
        )
        (
          refl,
          record {
            active =
                set_there s reliable l token s.access_ttl w2 (session_key id)
                  (λ e. session-ne-access_session id id (sym e))
                ∙ (set_there s reliable k id s.access_ttl w1 (session_key id)
                      (λ e. session-ne-access id token (sym e))
                    ∙ (same (session_key id) ∙ x.active));
            owner =
                set_there s reliable l token s.access_ttl w2 (refresh_key pair.refresh_token)
                  (λ e. refresh-ne-access_session pair.refresh_token id (sym e))
                ∙ (set_there s reliable k id s.access_ttl w1 (refresh_key pair.refresh_token)
                      (λ e. refresh-ne-access pair.refresh_token token (sym e))
                    ∙ (same (refresh_key pair.refresh_token) ∙ x.owner));
            access =
                set_there s reliable l token s.access_ttl w2 k
                  (λ e. access-ne-access_session token id (sym e))
                ∙ set_here s reliable k id s.access_ttl w1;
            access_active = set_here s reliable l token s.access_ttl w2;
            access_named = x.access_named;
            refresh_named = x.refresh_named;
          },
        )

module _ {W : Type 0} {view : View W} (s : Service W) (reliable : IsReliable view s.cache)
    (quiet : IsQuiet view s) (working : IsWorking s) where
  open s use {cache, users}

  issue_tokens-IsSession :
      (user : User) (w : W)
      → (pair : TokenPair) × ((issue_tokens s user w).0 ≡ ok pair)
        × IsSession view user.id pair (issue_tokens s user w).1
  unfolding issue_tokens generate_opaque_token
  issue_tokens-IsSession user w =
      let w1 = (invalidate_session s user.id w).1 in
      let w2 = (s.crypto.random w1).1 in
      let w3 = (s.crypto.random w2).1 in
      let (done, ended) = invalidate_session-IsEnded s reliable user.id w in
      let (b, e) = working.random w1 in
      let (b', e') = working.random w2 in
      let access = cat "access" (cat "_" (encode_base64 b)) in
      let refresh = cat "refresh" (cat "_" (encode_base64 b')) in
      let (stored, session) =
        store_tokens-IsSession s reliable user.id access refresh w3 (named "access" _ 5 refl)
          (named "refresh" _ 6 refl) in
      rw (done, e, e', stored)
        (record { access_token = access; refresh_token = refresh }, refl, session)

  start_session-IsSession :
      (user : User) (w : W)
      → (pair : TokenPair) × ((start_session s user w).0 ≡ ok pair)
        × IsSession view user.id pair (start_session s user w).1
  unfolding start_session mark
  start_session-IsSession user w =
      let w1 = (issue_tokens s user w).1 in
      let (pair, e, session) = issue_tokens-IsSession user w in
      rw (e, working.update user.id status_online (s.now w1) w1)
        (
          pair,
          refl,
          same-IsSession s reliable (quiet.update user.id status_online (s.now w1) w1) session,
        )

  -- With a cache that loses nothing and services that work, `Login` with the email and the
  -- password of a user succeeds, and the user then has a session with the tokens that it has
  -- returned.
  pub login-IsSession :
      (raw password : String) (user : User) (w : W)
      → eqb (normalize_email s raw) "" ≡ false
      → eqb password "" ≡ false
      → (users.get_by_email (normalize_email s raw) w).0 ≡ ok user
      → compare_hash_and_password s.crypto user.password_hash password ≡ ok tt
      → (pair : TokenPair) × ((login s raw password w).0 ≡ ok pair)
        × IsSession view user.id pair (login s raw password w).1
  unfolding login
  login-IsSession raw password user w a b found match =
      let (pair, e, session) =
        start_session-IsSession user (users.get_by_email (normalize_email s raw) w).1 in
      rw (a, b, found, match) (pair, e, session)

  -- In a session of a user, with a cache that loses nothing and services that work, `Refresh`
  -- with the refresh token of the session, spaces around it left out, succeeds if its look-up of
  -- the user finds one, and that user then has a session with the tokens that it has returned.
  pub refresh-IsSession :
      (raw id : String) (pair : TokenPair) (user : User) (w : W)
      → trim_space raw ≡ pair.refresh_token
      → IsSession view id pair w
      → (users.get_by_id id
          (cache.get (session_key id) (cache.get (refresh_key pair.refresh_token) w).1).1).0
        ≡ ok user
      → (pair' : TokenPair) × ((refresh s raw w).0 ≡ ok pair')
        × IsSession view user.id pair' (refresh s raw w).1
  unfolding refresh
  refresh-IsSession raw id pair user w t x found =
      let w1 = (cache.get (refresh_key pair.refresh_token) w).1 in
      let w2 = (cache.get (session_key id) w1).1 in
      let (pair', e, session) = start_session-IsSession user (users.get_by_id id w2).1 in
      rw
        (
          t,
          x.refresh_named,
          reliable.get (refresh_key pair.refresh_token) w,
          x.owner,
          reliable.get (session_key id) w1,
          reliable.get_view (refresh_key pair.refresh_token) w (session_key id),
          x.active,
          eq_refl pair.refresh_token,
          found,
        )
        (pair', e, session)
