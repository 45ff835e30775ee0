-- ===== src/Auth/Rotation.antt =====
-- Refresh tokens are used once: `Refresh` of internal/domain/auth/service_impl.go.
use chatter_stack.Base.{
  String, ◌≡◌, ◌≢◌, refl, sym, ap, ◌∙◌, subst, some, inl, inr, arith, eqb, eq_iff, trim_space,
  Bool-cases,
}
use mathlib.Core.Option.{some-injective}
use chatter_stack.Exec.{ok, Result-cases}
use chatter_stack.Models.{User}
use chatter_stack.Auth.{Service, TokenPair, start_session, refresh}
use chatter_stack.Auth.Keys.{session_key, refresh_key}
use chatter_stack.Auth.Cache.{View, Keeps, IsWorld, Keeps-refl, Keeps-trans}
use chatter_stack.Auth.Issue.{IsIssued, IsIssued-Keeps, start_session-IsIssued}

module _ {W : Type 0} {view : View W} (s : Service W) (world : IsWorld view s) where
  open s use {cache, users}

  renewed :
      (id : String) (user : User) (w2 : W) (pair : TokenPair) (w' : W)
      → (users.get_by_id id w2).0 ≡ ok user
      → start_session s user (users.get_by_id id w2).1 ≡ (ok pair, w')
      → IsIssued view id pair.refresh_token w2 w'
  renewed id user w2 pair w' found h =
      let w3 = (users.get_by_id id w2).1 in
      IsIssued-Keeps s world (world.by_id_keeps id w2) refl (Keeps-refl w') (
        subst (λ x. IsIssued view x pair.refresh_token w3 w') (world.by_id id w2 user found)
          (start_session-IsIssued s world user w3 w' pair h))

  -- With a cache in which a write that succeeded replaces the entry of its key, if `Refresh`
  -- accepts a token then its trimmed text stands in the cache as a refresh token of some user and
  -- as that user's active token. Afterwards the new token is the only one that can be active for
  -- the user, and no refresh token but the new one has an owner that it did not have before.
  pub refresh_active :
      (raw : String) (w w' : W) (pair : TokenPair)
      → refresh s raw w ≡ (ok pair, w')
      → (id : String) × (view w (refresh_key (trim_space raw)) ≡ some id)
        × (view w (session_key id) ≡ some (trim_space raw))
        × IsIssued view id pair.refresh_token w w'
  unfolding refresh
  refresh_active raw w w' pair h =
      let token = trim_space raw in
      let w1 = (cache.get (refresh_key token) w).1 in
      elim (Bool-cases (eqb token "")) [
        | inl b ↦ absurd (ground (arith, rw b at h))
        | inr b ↦ elim (Result-cases (cache.get (refresh_key token) w).0) [
          | inr (e, f1) ↦ absurd (ground (arith, rw (b, f1) at h))
          | inl (id, f1) ↦
              let w2 = (cache.get (session_key id) w1).1 in
              elim (Result-cases (cache.get (session_key id) w1).0) [
                | inr (e, f2) ↦ absurd (ground (arith, rw (b, f1, f2) at h))
                | inl (active, f2) ↦ elim (Bool-cases (eqb active token)) [
                  | inr c ↦ absurd (ground (arith, rw (b, f1, f2, c) at h))
                  | inl c ↦ elim (Result-cases (users.get_by_id id w2).0) [
                    | inr (e, f3) ↦ absurd (ground (arith, rw (b, f1, f2, c, f3) at h))
                    | inl (user, f3) ↦ (
                      id,
                      world.cached.get_sound (refresh_key token) id w f1,
                      (world.cached.get_keeps (refresh_key token) w).at (session_key id) token (
                          world.cached.get_sound (session_key id) token w1
                            (f2 ∙ ap ok ((eq_iff active token).0 c))),
                      IsIssued-Keeps s world
                          (Keeps-trans (world.cached.get_keeps (refresh_key token) w)
                            (world.cached.get_keeps (session_key id) w1))
                          refl (Keeps-refl w')
                          (renewed id user w2 pair w' f3 (rw (b, f1, f2, c, f3) at h)),
                    )
                  ]
                ]
              ]
        ]
      ]

  -- With a cache in which a write that succeeded replaces the entry of its key, once `Refresh`
  -- has accepted a token and made another one, it does not accept the old one in the world that
  -- follows, nor in a later one whose cache has no entries but those, even if deletions were
  -- lost.
  pub refresh_rotates :
      (old : String) (w w' w'' : W) (pair again : TokenPair)
      → refresh s old w ≡ (ok pair, w')
      → pair.refresh_token ≢ trim_space old
      → Keeps view w' w''
      → (refresh s old w'').0 ≢ ok again
  refresh_rotates old w w' w'' pair again h new later h' =
      let (id, owner, active, issued) = refresh_active old w w' pair h in
      let (id', owner', active', issued') =
        refresh_active old w'' (refresh s old w'').1 again (ground arith) in
      elim (issued.owners (trim_space old) id'
        (later.at (refresh_key (trim_space old)) id' owner')) [
          | inl e ↦ new (sym e)
          | inr before ↦
              let same : id' ≡ id = some-injective _ _ (sym before ∙ owner) in
              new (
                sym (
                  issued.active (trim_space old) (
                    later.at (session_key id) (trim_space old) (
                      subst (λ x. view w'' (session_key x) ≡ some (trim_space old)) same active'))))
        ]
