-- ===== src/Auth/Login.antt =====
-- Who is let in: `Login`, `ValidateAccessToken` and `Logout` of
-- internal/domain/auth/service_impl.go.
use chatter_stack.Base.{
  String, ◌≡◌, refl, ap, ◌∙◌, some, arith, false, eqb, inl, inr, trim_space, Bool-cases,
}
use chatter_stack.Errors.{
  Error, auth, no_rows, cache_miss, invalid_credentials, invalid_access_token,
}
use chatter_stack.Exec.{ok, err, Result-cases}
use chatter_stack.Models.{User}
use chatter_stack.Utils.{compare_hash_and_password}
use chatter_stack.Auth.{
  Service, TokenPair, start_session, login, validate_access_token, normalize_email,
}
use chatter_stack.Auth.Keys.{access_key, access_session_key}
use chatter_stack.Auth.Cache.{View, IsWorld}

module _ {W : Type 0} (s : Service W) where
  open s use {cache, users}

  -- `Login` succeeds only if the normalized email and the password are not empty, the look-up of
  -- that email finds a user, and the password matches the hash of that user. Then the session is
  -- that user's.
  pub login_checks :
      (email password : String) (w w' : W) (pair : TokenPair)
      → login s email password w ≡ (ok pair, w')
      → (eqb (normalize_email s email) "" ≡ false)
        × (eqb password "" ≡ false)
        × (user : User) × ((users.get_by_email (normalize_email s email) w).0 ≡ ok user)
        × (compare_hash_and_password s.crypto user.password_hash password ≡ ok tt)
        × (start_session s user (users.get_by_email (normalize_email s email) w).1 ≡ (ok pair, w'))
  unfolding login
  login_checks email password w w' pair h = elim (Bool-cases (eqb (normalize_email s email) "")) [
    | inl a ↦ absurd (ground (arith, rw a at h))
    | inr a ↦ elim (Bool-cases (eqb password "")) [
      | inl b ↦ absurd (ground (arith, rw (a, b) at h))
      | inr b ↦ elim (Result-cases (users.get_by_email (normalize_email s email) w).0) [
        | inr (e, f) ↦ absurd (ground (arith, rw (a, b, f) at h))
        | inl (user, f) ↦
            elim (Result-cases (compare_hash_and_password s.crypto user.password_hash password)) [
              | inr (e, g) ↦ absurd (ground (arith, rw (a, b, f, g) at h))
              | inl (u, g) ↦ (a, b, user, f, g, rw (a, b, f, g) at h)
            ]
      ]
    ]
  ]

  -- A stranger cannot tell whether an email is known: with emails and passwords that are not
  -- empty, a wrong password and an email that no user has get the same error.
  pub login_tells_nothing :
      (known unknown password password' : String) (user : User) (e : Error) (w w' : W)
      → eqb (normalize_email s known) "" ≡ false
      → eqb (normalize_email s unknown) "" ≡ false
      → eqb password "" ≡ false
      → eqb password' "" ≡ false
      → (users.get_by_email (normalize_email s known) w).0 ≡ ok user
      → compare_hash_and_password s.crypto user.password_hash password ≡ err e
      → (users.get_by_email (normalize_email s unknown) w').0 ≡ err no_rows
      → ((login s known password w).0 ≡ err (auth invalid_credentials))
        × ((login s unknown password' w').0 ≡ err (auth invalid_credentials))
  unfolding login
  login_tells_nothing known unknown password password' user e w w' a b c d found wrong missing =
      (rw (a, c, found, wrong) refl, rw (b, d, missing) refl)

  -- With a cache that reads what stands in it, an access token that is accepted, once trimmed,
  -- stands in the cache with the user it is accepted for.
  pub validated_is_stored :
      {view : View W} (world : IsWorld view s) (raw id : String) (w w' : W)
      → validate_access_token s raw w ≡ (ok id, w')
      → view w (access_key (trim_space raw)) ≡ some id
  unfolding validate_access_token
  validated_is_stored world raw id w w' h = elim (Bool-cases (eqb (trim_space raw) "")) [
    | inl a ↦ absurd (ground (arith, rw a at h))
    | inr a ↦ elim (Result-cases (cache.get (access_key (trim_space raw)) w).0) [
      | inr (e, f) ↦ absurd (ground (arith, rw (a, f) at h))
      | inl (user_id, f) ↦
          let w1 = (cache.get (access_key (trim_space raw)) w).1 in
          let k = access_key (trim_space raw) in
          let l = access_session_key user_id in
          let w2 = (cache.set k user_id s.access_ttl w1).1 in
          elim (Result-cases (cache.set k user_id s.access_ttl w1).0) [
            | inr (e, g) ↦ absurd (ground (arith, rw (a, f, g) at h))
            | inl (u, g) ↦ elim (Result-cases (cache.set l (trim_space raw) s.access_ttl w2).0) [
              | inr (e, g') ↦ absurd (ground (arith, rw (a, f, g, g') at h))
              | inl (u', g') ↦
                  world.cached.get_sound k id w (f ∙ ap (λ p. p.0) (rw (a, f, g, g') at h))
            ]
          ]
    ]
  ]

  -- A token that is not in the cache is reported as invalid, and no entry is written for it.
  pub unknown_token_refused :
      (raw : String) (w : W)
      → (cache.get (access_key (trim_space raw)) w).0 ≡ err cache_miss
      → (validate_access_token s raw w).0 ≡ err (auth invalid_access_token)
  unfolding validate_access_token
  unknown_token_refused raw w missing = elim (Bool-cases (eqb (trim_space raw) "")) [
    | inl a ↦ rw a refl
    | inr a ↦ rw (a, missing) refl
  ]
