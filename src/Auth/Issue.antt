-- ===== src/Auth/Issue.antt =====
-- What stands in the cache after `issueTokens` of internal/domain/auth/service_impl.go has succeeded.
use chatter_stack.Base.{String, ◌≡◌, ◌≢◌, sym, ap, subst, ◌∙◌, some, ℤ, ◌⊎◌, inl, inr, arith}
use chatter_stack.Exec.{Result, ok, err, Exec, Result-cases}
use chatter_stack.Models.{User, status_online}
use chatter_stack.Utils.{generate_opaque_token}
use chatter_stack.Auth.{
  Service, TokenPair, unwind, store_tokens, delete_all, issue_tokens, invalidate_session,
  start_session, mark,
}
use chatter_stack.Auth.Keys.{
  session_key, access_key, access_session_key, refresh_key, refresh_key_inj, session-ne-refresh,
  session-ne-access, session-ne-access_session, refresh-ne-access, refresh-ne-access_session,
}
use chatter_stack.Auth.Cache.{
  View, Keeps, IsWorld, Keeps-refl, Keeps-trans, invalidate_session-Keeps,
}

unwind-ok :
    {W A : Type 0} (r : Result A) (cleanup : Exec W (Unit {0})) (w : W) {a : A} {w' : W}
    → unwind r cleanup w ≡ (ok a, w')
    → (r ≡ ok a) × (w ≡ w')
unfolding unwind
unwind-ok (ok b) cleanup w h = (ap (λ p. p.0) h, ap (λ p. p.1) h)
unwind-ok (err e) cleanup w h = cc

-- The entries of a session after its tokens are stored: no refresh token is active but `refresh`, and
-- no other refresh token has an owner that it did not have before.
pub record IsIssued {W : Type 0} (view : View W) (id refresh : String) (w w' : W) : Type 0 where
  pub active : (x : String) → view w' (session_key id) ≡ some x → x ≡ refresh
  pub owners :
      (y v : String)
      → view w' (refresh_key y) ≡ some v
      → (y ≡ refresh) ⊎ (view w (refresh_key y) ≡ some v)

module _ {W : Type 0} {view : View W} (s : Service W) (world : IsWorld view s) where
  open s use {cache, access_ttl, refresh_ttl}

  set_misses :
      (k v : String) (ttl : ℤ) (w : W) (j u : String)
      → j ≢ k
      → view (cache.set k v ttl w).1 j ≡ some u
      → view w j ≡ some u
  set_misses k v ttl w j u n h = elim (world.cached.set_only k v ttl w j u h) [
    | inl (e, f) ↦ absurd (n e)
    | inr e ↦ e
  ]

  -- The four writes, one after the other.
  writes : String → String → String → W → W
  writes id access refresh w =
      let w1 = (cache.set (session_key id) refresh refresh_ttl w).1 in
      let w2 = (cache.set (refresh_key refresh) id refresh_ttl w1).1 in
      let w3 = (cache.set (access_key access) id access_ttl w2).1 in
      (cache.set (access_session_key id) access access_ttl w3).1

  store_tokens-ok :
      (id access refresh : String) (w w' : W)
      → store_tokens s id access refresh w ≡ (ok tt, w')
      → ((cache.set (session_key id) refresh refresh_ttl w).0 ≡ ok tt)
        × (writes id access refresh w ≡ w')
  unfolding store_tokens writes unwind
  store_tokens-ok id access refresh w w' h =
      let k1 = session_key id in
      let k2 = refresh_key refresh in
      let k3 = access_key access in
      let k4 = access_session_key id in
      let w1 = (cache.set k1 refresh refresh_ttl w).1 in
      let w2 = (cache.set k2 id refresh_ttl w1).1 in
      let w3 = (cache.set k3 id access_ttl w2).1 in
      elim (Result-cases (cache.set k1 refresh refresh_ttl w).0) [
        | inr (e, f1) ↦ absurd (ground (arith, rw f1 at h))
        | inl (u1, f1) ↦ elim (Result-cases (cache.set k2 id refresh_ttl w1).0) [
          | inr (e, f2) ↦ absurd (ground (arith, rw (f1, f2) at h))
          | inl (u2, f2) ↦ elim (Result-cases (cache.set k3 id access_ttl w2).0) [
            | inr (e, f3) ↦ absurd (ground (arith, rw (f1, f2, f3) at h))
            | inl (u3, f3) ↦
                let (d, last) =
                  unwind-ok (cache.set k4 access access_ttl w3).0 (delete_all s id refresh access)
                    (cache.set k4 access access_ttl w3).1 (rw (f1, f2, f3) at h) in
                (f1, last)
          ]
        ]
      ]

  store_tokens-IsIssued :
      (id access refresh : String) (w w' : W)
      → store_tokens s id access refresh w ≡ (ok tt, w')
      → IsIssued view id refresh w w'
  unfolding writes
  store_tokens-IsIssued id access refresh w w' h =
      let (stored, same) = store_tokens-ok id access refresh w w' h in
      let k1 = session_key id in
      let k2 = refresh_key refresh in
      let k3 = access_key access in
      let k4 = access_session_key id in
      let w1 = (cache.set k1 refresh refresh_ttl w).1 in
      let w2 = (cache.set k2 id refresh_ttl w1).1 in
      let w3 = (cache.set k3 id access_ttl w2).1 in
      record {
        active = λ x e. world.cached.set_ok k1 refresh refresh_ttl w x stored (
            set_misses k2 id refresh_ttl w1 k1 x (session-ne-refresh id refresh) (
              set_misses k3 id access_ttl w2 k1 x (session-ne-access id access) (
                set_misses k4 access access_ttl w3 k1 x (session-ne-access_session id id)
                  (rw same e))));
        owners = λ y v e. written y v (
            set_misses k3 id access_ttl w2 (refresh_key y) v (refresh-ne-access y access) (
              set_misses k4 access access_ttl w3 (refresh_key y) v (refresh-ne-access_session y id)
                (rw same e)));
      }
    where
      written :
          (y v : String)
          → view
              (cache.set
                (refresh_key refresh)
                id
                refresh_ttl
                (cache.set (session_key id) refresh refresh_ttl w).1).1
              (refresh_key y)
            ≡ some v
          → (y ≡ refresh) ⊎ (view w (refresh_key y) ≡ some v)
      written y v e =
          elim (world.cached.set_only (refresh_key refresh) id refresh_ttl _ (refresh_key y) v e) [
            | inl (same_key, f) ↦ inl (refresh_key_inj y refresh same_key)
            | inr f ↦ inr (
                set_misses (session_key id) refresh refresh_ttl w (refresh_key y) v
                  (λ g. session-ne-refresh id y (sym g)) f)
          ]

  pub IsIssued-Keeps :
      {w0 w w1 w' : W} {id refresh refresh' : String}
      → Keeps view w0 w
      → refresh ≡ refresh'
      → Keeps view w1 w'
      → IsIssued view id refresh w w1
      → IsIssued view id refresh' w0 w'
  IsIssued-Keeps {id = id} k same later i = record {
    active = λ x e. i.active x (later.at (session_key id) x e) ∙ same;
    owners = λ y v e. elim (i.owners y v (later.at (refresh_key y) v e)) [
      | inl f ↦ inl (f ∙ same)
      | inr f ↦ inr (k.at (refresh_key y) v f)
    ];
  }

  Keeps-of_eq : {w w' : W} → w ≡ w' → Keeps view w w'
  Keeps-of_eq {w = w} e = subst (Keeps view w) e (Keeps-refl w)

  pub issue_tokens-IsIssued :
      (user : User) (w w' : W) (pair : TokenPair)
      → issue_tokens s user w ≡ (ok pair, w')
      → IsIssued view user.id pair.refresh_token w w'
  unfolding issue_tokens
  issue_tokens-IsIssued user w w' pair h =
      let w1 = (invalidate_session s user.id w).1 in
      let w2 = (generate_opaque_token s.crypto "access" w1).1 in
      let w3 = (generate_opaque_token s.crypto "refresh" w2).1 in
      elim (Result-cases (invalidate_session s user.id w).0) [
        | inr (e, f1) ↦ absurd (ground (arith, rw f1 at h))
        | inl (u1, f1) ↦ elim (Result-cases (generate_opaque_token s.crypto "access" w1).0) [
          | inr (e, f2) ↦ absurd (ground (arith, rw (f1, f2) at h))
          | inl (access, f2) ↦ elim (Result-cases (generate_opaque_token s.crypto "refresh" w2).0) [
            | inr (e, f3) ↦ absurd (ground (arith, rw (f1, f2, f3) at h))
            | inl (refresh, f3) ↦ elim (Result-cases (store_tokens s user.id access refresh w3).0) [
              | inr (e, f4) ↦ absurd (ground (arith, rw (f1, f2, f3, f4) at h))
              | inl (u4, f4) ↦
                  let w4 = (store_tokens s user.id access refresh w3).1 in
                  let made : Result TokenPair × W =
                    (ok (record { access_token = access; refresh_token = refresh }), w4) in
                  let last : made ≡ (ok pair, w') = rw (f1, f2, f3, f4) at h in
                  IsIssued-Keeps
                    (Keeps-trans (invalidate_session-Keeps s world user.id w) (
                      Keeps-trans (world.token_keeps "access" w1) (world.token_keeps "refresh" w2)))
                    (ground arith) (Keeps-of_eq (ap (λ p. p.1) last))
                    (store_tokens-IsIssued user.id access refresh w3 w4 (ground arith))
            ]
          ]
        ]
      ]

  pub start_session-IsIssued :
      (user : User) (w w' : W) (pair : TokenPair)
      → start_session s user w ≡ (ok pair, w')
      → IsIssued view user.id pair.refresh_token w w'
  unfolding start_session mark
  start_session-IsIssued user w w' pair h =
      let w1 = (issue_tokens s user w).1 in
      elim (Result-cases (issue_tokens s user w).0) [
        | inr (e, f1) ↦ absurd (ground (arith, rw f1 at h))
        | inl (tokens, f1) ↦
            let w2 = (mark s user.id status_online w1).1 in
            elim (Result-cases (mark s user.id status_online w1).0) [
              | inr (e, f2) ↦ absurd (ground (arith, rw (f1, f2) at h))
              | inl (u, f2) ↦
                  let made : Result TokenPair × W = (ok tokens, w2) in
                  let last : made ≡ (ok pair, w') = rw (f1, f2) at h in
                  IsIssued-Keeps (Keeps-refl w) (ground arith)
                    (Keeps-trans (world.update_keeps user.id status_online (s.now w1) w1)
                      (Keeps-of_eq (ap (λ p. p.1) last)))
                    (issue_tokens-IsIssued user w w1 tokens (ground arith))
            ]
      ]
