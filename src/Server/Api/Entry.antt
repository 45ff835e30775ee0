-- ===== src/Server/Api/Entry.antt =====
-- Who gets through the HTTP server that cmd/server/main.go puts together, and what everybody gets.
use chatter_stack.Base.{
  ℕ, String, ◌≡◌, refl, Bool, true, false, List, some, arith, ◌⊎◌, inl, inr, Bool-cases, eqb,
  eq_iff, trim_space,
}
use chatter_stack.Base.Dict.{Dict}
use chatter_stack.Auth.Keys.{access_key}
use chatter_stack.Auth
use chatter_stack.Auth.Cache.{View, IsCache, Keeps}
use chatter_stack.Utils.{generate_opaque_token}
use chatter_stack.Config.{Config}
use chatter_stack.Redis
use chatter_stack.Postgres.{Env}
use chatter_stack.Middleware.{cors}
use chatter_stack.Middleware.Bearer.{request_token}
use chatter_stack.Middleware.RateLimit
use chatter_stack.Middleware.RateLimit.{RateLimiter, Visitor}
use chatter_stack.Http.Router.{Services, is_protected, handle}
use chatter_stack.Http.Router.Answering.{IsServed}
use chatter_stack.Http.Router.Guarded.{protected_needs_token}
use chatter_stack.Http.Router.Served.{served}
use chatter_stack.Server.Wiring.{Node, Libraries, services}
use chatter_stack.Server.Wiring.Trusted.{redis_view, services-IsWorld}
use chatter_stack.Server.Api.{Incoming, State, routed, passed, api}

module _ {W L : Type 0} (allowed : List String) (limiter : RateLimiter L) (svc : Services W) where
  routed-IsServed :
      (ok : Bool) (q : Incoming) (visitors : Dict (Visitor L)) (w : W)
      → IsServed (routed allowed limiter svc ok q visitors w).0
  unfolding routed IsServed
  routed-IsServed true q visitors w = served svc q.call q.authorization q.auth_token q.request w
  routed-IsServed false q visitors w = inr (inl (omega arith, omega arith))

  passed-IsServed :
      (passes : Bool) (q : Incoming) (now : ℕ) (s : State allowed limiter svc)
      → IsServed (passed allowed limiter svc passes q now s).0
  unfolding passed IsServed
  passed-IsServed true q now (visitors, w) =
      let (ok, visitors1) = RateLimit.handle limiter q.client_ip now visitors in
      routed-IsServed ok q visitors1 w
  passed-IsServed false q now s = inl (omega arith, omega arith)

  -- A request that leads to a route, and whose handler ends without a panic, is answered by the
  -- API server with a success (200 to 204), with an error of the client (400 to 499), or with 500
  -- and a text that does not tell what went wrong, whatever results the services return.
  pub api-IsServed :
      (q : Incoming) (now : ℕ) (s : State allowed limiter svc)
      → IsServed (api allowed limiter svc q now s).0.response
  unfolding api
  api-IsServed q now s = passed-IsServed (cors allowed q.origin q.method).1 q now s

module _ {K S L : Type 0} {view : View K} (allowed : List String) (limiter : RateLimiter L)
    (env : Env) (client : Redis.Client K S) (libraries : Libraries K)
    (cached : IsCache view (Redis.new_cache client))
    (drawn : (prefix : String) (n : Node K)
      → Keeps (redis_view view) n (generate_opaque_token libraries.crypto prefix n).1)
    (cfg : Config) where
  -- In the API server that is put together, over a Redis that does what the authentication relies
  -- on and a source of tokens that leaves Redis alone, a request to a protected route ends in one
  -- of four ways. It is a preflight and changes nothing; it is turned down with 429 and changes
  -- nothing but the table of visitors; it is answered with 401; or the token of its headers,
  -- trimmed, stands in Redis as an access token of some user, and its handler runs for that user
  -- after the token has been validated.
  pub api_needs_token :
      (q : Incoming) (now : ℕ) (visitors : Dict (Visitor L)) (n : Node K)
      → is_protected q.call ≡ true
      → let svc = services env client libraries cfg in
        let (answer, (visitors1, n1)) = api allowed limiter svc q now (visitors, n) in
        ((q.method ≡ "OPTIONS")
          × (answer.response.status ≡ 200)
          × (visitors1 ≡ visitors)
          × (n1 ≡ n))
        ⊎ ((answer.response.status ≡ 429) × (n1 ≡ n))
        ⊎ (answer.response.status ≡ 401)
        ⊎ ((id : String) × (view n.redis
                (access_key (trim_space (request_token q.authorization q.auth_token)))
              ≡ some id)
            × ((answer.response, n1)
                ≡ handle svc q.call
                    (record q.request { user_id = some id })
                    (Auth.validate_access_token svc.auth
                      (request_token q.authorization q.auth_token)
                      n).1))
  unfolding api passed routed cors
  api_needs_token q now visitors n p =
      let svc = services env client libraries cfg in
      let world = services-IsWorld env client libraries cached drawn cfg in
      elim (Bool-cases (eqb q.method "OPTIONS")) [
        | inl e ↦ rw e (inl ((eq_iff q.method "OPTIONS").0 e, refl, refl, refl))
        | inr e ↦ rw e (elim (Bool-cases (RateLimit.handle limiter q.client_ip now visitors).0) [
          | inr f ↦ rw f (inr (inl (refl, refl)))
          | inl f ↦
              rw f
                (elim (protected_needs_token svc world q.call q.authorization q.auth_token q.request
                  n p) [
                    | inl status ↦ inr (inr (inl status))
                    | inr (id, stored, same) ↦ inr (inr (inr (id, stored, same)))
                  ])
        ])
      ]
