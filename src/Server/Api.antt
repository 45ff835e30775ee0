-- ===== src/Server/Api.antt =====
-- The handler of the HTTP server in cmd/server/main.go: pkg/middleware/cors.go, then
-- pkg/middleware/rate_limit.go, then the routes. The log and the recovery from panics are gin's.
pub mod Entry
use chatter_stack.Base.{ℕ, ℤ, String, Bool, true, false, Option, List, if◌then◌else◌}
use chatter_stack.Base.Dict.{Dict}
use chatter_stack.Config.{Config}
use chatter_stack.Middleware.{cors}
use chatter_stack.Middleware.RateLimit
use chatter_stack.Middleware.RateLimit.{RateLimiter, Visitor, Limits}
use chatter_stack.Http.Request.{Body, empty, error, Response, Request}
use chatter_stack.Http.Router.{Services, Call, serve}

-- What reaches the server: the method, the headers "Origin", "Authorization" and "X-Auth-Token", the
-- address of the client as gin makes it out, and the route with its request.
pub record Incoming : Type 0 where
  pub method : String
  pub origin : String
  pub authorization : String
  pub auth_token : String
  pub client_ip : String
  pub call : Call
  pub request : Request

-- The origin that the headers allow, and the rest of the answer.
pub record Answer : Type 0 where
  pub allow_origin : Option String
  pub response : Response

-- middleware.RateLimiterConfig as the API server fills it.
pub limits : Config → Limits
limits cfg = record {
  requests = cfg.rate_limit.requests;
  window = cfg.rate_limit.window;
  burst = cfg.rate_limit.burst;
}

module _ {W L : Type 0} (allowed : List String) (limiter : RateLimiter L) (svc : Services W) where
  -- The visitors of the limiter, and the world.
  abbrev pub State : Type 0
  State = Dict (Visitor L) × W

  routed : Bool → Incoming → Dict (Visitor L) → W → Response × State
  routed true q visitors w =
      let (response, w1) = serve svc q.call q.authorization q.auth_token q.request w in
      (response, (visitors, w1))
  routed false q visitors w =
      (record { status = 429; body = error "too many requests" }, (visitors, w))

  passed : Bool → Incoming → ℕ → State → Response × State
  unfolding routed
  passed true q now (visitors, w) =
      let (ok, visitors1) = RateLimit.handle limiter q.client_ip now visitors in
      routed ok q visitors1 w
  passed false q now s = (record { status = 200; body = empty }, s)

  unfoldable pub api : Incoming → ℕ → State → Answer × State
  unfolding passed
  api q now s =
      let (allow_origin, passes) = cors allowed q.origin q.method in
      let (response, s1) = passed passes q now s in
      (record { allow_origin = allow_origin; response = response }, s1)
