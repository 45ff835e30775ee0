-- ===== src/Auth/Session.antt =====
-- The life of a session of internal/domain/auth/service_impl.go when the cache loses nothing: it is
-- issued, its tokens are accepted, and `Logout` ends it.
use chatter_stack.Base.{
  ℕ, String, ◌≡◌, ◌≢◌, refl, sym, ◌∙◌, false, none, some, List, ℤ, inl, inr, arith, eqb, eq_iff,
  trim_space, Bool-cases,
}
use chatter_stack.Errors.{auth, invalid_refresh_token, invalid_access_token}
use chatter_stack.Exec.{ok, err}
use chatter_stack.Models.{status_offline}
use chatter_stack.Auth.{
  Service, TokenPair, is_blank, unwind, store_tokens, invalidate_session, mark, refresh, logout,
  validate_access_token,
}
use chatter_stack.Auth.Keys.{
  session_key, access_key, access_session_key, refresh_key, session-ne-refresh, session-ne-access,
  session-ne-access_session, refresh-ne-access, refresh-ne-access_session, access-ne-access_session,
}
use chatter_stack.Auth.Cache.{View, Keeps, Keeps-none}
use chatter_stack.Auth.Login.{unknown_token_refused}
use chatter_stack.Auth.Reliable.{IsReliable, invalidate_session-IsEnded}

-- The other services of a world leave the entries of the cache as they are.
pub record IsQuiet {W : Type 0} (view : View W) (s : Service W) : Type 0 where
  pub update :
      (id status : String) (now : ℕ) (w : W) (k : String)
      → view (s.users.update_status id status now w).1 k ≡ view w k
  pub random : (w : W) (k : String) → view (s.crypto.random w).1 k ≡ view w k

-- The source of random bytes gives some, and the status of a user can be written.
pub record IsWorking {W : Type 0} (s : Service W) : Type 0 where
  pub update :
      (id status : String) (now : ℕ) (w : W) → (s.users.update_status id status now w).0 ≡ ok tt
  pub random : (w : W) → (buffer : List ℕ) × ((s.crypto.random w).0 ≡ ok buffer)

-- The four entries of a session, for tokens that are not empty.
pub record IsSession {W : Type 0} (view : View W) (id : String) (pair : TokenPair) (w : W)
    : Type 0 where
  pub active : view w (session_key id) ≡ some pair.refresh_token
  pub owner : view w (refresh_key pair.refresh_token) ≡ some id
  pub access : view w (access_key pair.access_token) ≡ some id
  pub access_active : view w (access_session_key id) ≡ some pair.access_token
  pub access_named : eqb pair.access_token "" ≡ false
  pub refresh_named : eqb pair.refresh_token "" ≡ false

module _ {W : Type 0} {view : View W} (s : Service W) (reliable : IsReliable view s.cache) where
  open s use {cache}

  pub set_here : (k v : String) (ttl : ℤ) (w : W) → view (cache.set k v ttl w).1 k ≡ some v
  set_here k v ttl w = ground (arith, reliable.set_view k v ttl w k, eq_iff k k)

  pub set_there :
      (k v : String) (ttl : ℤ) (w : W) (j : String)
      → k ≢ j
      → view (cache.set k v ttl w).1 j ≡ view w j
  set_there k v ttl w j n = ground (arith, reliable.set_view k v ttl w j, eq_iff k j)

  pub same-IsSession :
      {id : String} {pair : TokenPair} {w w' : W}
      → ((k : String) → view w' k ≡ view w k)
      → IsSession view id pair w
      → IsSession view id pair w'
  same-IsSession {id = id} {pair = pair} same x = record {
    active = same (session_key id) ∙ x.active;
    owner = same (refresh_key pair.refresh_token) ∙ x.owner;
    access = same (access_key pair.access_token) ∙ x.access;
    access_active = same (access_session_key id) ∙ x.access_active;
    access_named = x.access_named;
    refresh_named = x.refresh_named;
  }

  pub store_tokens-IsSession :
      (id access refresh : String) (w : W)
      → eqb access "" ≡ false
      → eqb refresh "" ≡ false
      → ((store_tokens s id access refresh w).0 ≡ ok tt)
        × IsSession view id
            (record { access_token = access; refresh_token = refresh })
            (store_tokens s id access refresh w).1
  unfolding store_tokens unwind
  store_tokens-IsSession id access refresh w named named' =
      let k1 = session_key id in
      let k2 = refresh_key refresh in
      let k3 = access_key access in
      let k4 = access_session_key id in
      let w1 = (cache.set k1 refresh s.refresh_ttl w).1 in
      let w2 = (cache.set k2 id s.refresh_ttl w1).1 in
      let w3 = (cache.set k3 id s.access_ttl w2).1 in
      rw
        (
          reliable.set k1 refresh s.refresh_ttl w,
          reliable.set k2 id s.refresh_ttl w1,
          reliable.set k3 id s.access_ttl w2,
          reliable.set k4 access s.access_ttl w3,
        )
        (
          refl,
          record {
            active =
                set_there k4 access s.access_ttl w3 k1
                  (λ e. session-ne-access_session id id (sym e))
                ∙ (set_there k3 id s.access_ttl w2 k1 (λ e. session-ne-access id access (sym e))
                    ∙ (set_there k2 id s.refresh_ttl w1 k1
                          (λ e. session-ne-refresh id refresh (sym e))
                        ∙ set_here k1 refresh s.refresh_ttl w));
            owner =
                set_there k4 access s.access_ttl w3 k2
                  (λ e. refresh-ne-access_session refresh id (sym e))
                ∙ (set_there k3 id s.access_ttl w2 k2
                      (λ e. refresh-ne-access refresh access (sym e))
                    ∙ set_here k2 id s.refresh_ttl w1);
            access =
                set_there k4 access s.access_ttl w3 k3
                  (λ e. access-ne-access_session access id (sym e))
                ∙ set_here k3 id s.access_ttl w2;
            access_active = set_here k4 access s.access_ttl w3;
            access_named = named;
            refresh_named = named';
          },
        )

  refresh_of_nothing :
      (raw : String) (w : W)
      → view w (refresh_key (trim_space raw)) ≡ none
      → (refresh s raw w).0 ≡ err (auth invalid_refresh_token)
  unfolding refresh
  refresh_of_nothing raw w e = elim (Bool-cases (eqb (trim_space raw) "")) [
    | inl a ↦ rw a refl
    | inr a ↦ rw (a, reliable.get (refresh_key (trim_space raw)) w, e) refl
  ]

  access_of_nothing :
      (raw : String) (w : W)
      → view w (access_key (trim_space raw)) ≡ none
      → (validate_access_token s raw w).0 ≡ err (auth invalid_access_token)
  access_of_nothing raw w e =
      unknown_token_refused s raw w (rw (reliable.get (access_key (trim_space raw)) w, e) refl)

  module _ (quiet : IsQuiet view s) where
    -- The entries of both tokens are gone behind a `Logout`.
    logout_clears :
        (raw refresh_token access_token : String) (w : W)
        → is_blank raw ≡ false
        → view w (session_key (trim_space raw)) ≡ some (trim_space refresh_token)
        → view w (access_session_key (trim_space raw)) ≡ some (trim_space access_token)
        → (view (logout s raw w).1 (refresh_key (trim_space refresh_token)) ≡ none)
          × (view (logout s raw w).1 (access_key (trim_space access_token)) ≡ none)
    unfolding logout mark
    logout_clears raw refresh_token access_token w blank active access =
        let id = trim_space raw in
        let w1 = (invalidate_session s id w).1 in
        let same = quiet.update id status_offline (s.now w1) w1 in
        let (done, ended) = invalidate_session-IsEnded s reliable id w in
        rw (blank, done)
          (
            same (refresh_key (trim_space refresh_token))
                ∙ ended.refresh (trim_space refresh_token) active,
            same (access_key (trim_space access_token))
                ∙ ended.access (trim_space access_token) access,
          )

    -- With a cache that loses nothing, `Logout` of a user ends the user's session, if both its
    -- entries are in the cache: the refresh token and the access token that they name are refused
    -- right after it, and in every later world whose cache has no entries but those that are left
    -- then.
    pub logout_revokes :
        (raw refresh_token access_token : String) (w w' : W)
        → is_blank raw ≡ false
        → view w (session_key (trim_space raw)) ≡ some (trim_space refresh_token)
        → view w (access_session_key (trim_space raw)) ≡ some (trim_space access_token)
        → Keeps view (logout s raw w).1 w'
        → ((refresh s refresh_token w').0 ≡ err (auth invalid_refresh_token))
          × ((validate_access_token s access_token w').0 ≡ err (auth invalid_access_token))
    logout_revokes raw refresh_token access_token w w' blank active access later =
        let (gone, gone') = logout_clears raw refresh_token access_token w blank active access in
        (
          refresh_of_nothing refresh_token w'
              (Keeps-none later (refresh_key (trim_space refresh_token)) gone),
          access_of_nothing access_token w'
              (Keeps-none later (access_key (trim_space access_token)) gone'),
        )

  -- `Logout` succeeds.
  pub logout_ends :
      (working : IsWorking s) (raw : String) (w : W)
      → is_blank raw ≡ false
      → (logout s raw w).0 ≡ ok tt
  unfolding logout mark
  logout_ends working raw w blank =
      let w1 = (invalidate_session s (trim_space raw) w).1 in
      let (done, ended) = invalidate_session-IsEnded s reliable (trim_space raw) w in
      rw (blank, done, working.update (trim_space raw) status_offline (s.now w1) w1) refl
