-- ===== src/Server/Start/Release.antt =====
-- What is still open when a server of cmd/server/main.go has ended.
use chatter_stack.Base.{String, ◌≡◌, ◌≢◌, refl, ◌∙◌, List, ◌∷◌, inl, inr}
use chatter_stack.Exec.{ok, Exec, Result-cases}
use chatter_stack.Config.{Config, RedisConfig, address}
use chatter_stack.Server.Start.{
  Ending, done, listen_failed, System, on_ending, listen, with_pool, start_api_server,
  start_websocket_server,
}

pub data Resource : Type 0 where
  pool redis_client hub : Resource

-- `held` is what the process has opened and not closed, the newest first. Closing is only known to
-- work in the reverse order of opening, and what fails opens nothing.
pub record IsHolding {W : Type 0} (held : W → List Resource) (sys : System W) : Type 0 where
  pub parse_config : (dsn : String) (w : W) → held (sys.parse_config dsn w).1 ≡ held w
  pub new_pool : (w : W) → (sys.new_pool w).0 ≡ ok tt → held (sys.new_pool w).1 ≡ pool ∷ held w
  pub no_pool : (w : W) → (sys.new_pool w).0 ≢ ok tt → held (sys.new_pool w).1 ≡ held w
  pub close_pool : (l : List Resource) (w : W) → held w ≡ pool ∷ l → held (sys.close_pool w) ≡ l
  pub new_redis : (cfg : RedisConfig) (w : W) → held (sys.new_redis cfg w) ≡ redis_client ∷ held w
  pub close_redis :
      (l : List Resource) (w : W) → held w ≡ redis_client ∷ l → held (sys.close_redis w) ≡ l
  pub start_hub : (w : W) → held (sys.start_hub w) ≡ hub ∷ held w
  pub cancel_hub : (l : List Resource) (w : W) → held w ≡ hub ∷ l → held (sys.cancel_hub w) ≡ l
  pub wait : (addr : String) (w : W) → held (sys.wait addr w).1 ≡ held w
  pub shutdown : (w : W) → held (sys.shutdown w).1 ≡ held w

module _ {W : Type 0} {held : W → List Resource} (sys : System W)
    (holding : IsHolding held sys) where
  on_ending-held :
      (text : String) (e : Ending) (w : W) → held (on_ending sys text (e, w)).1 ≡ held w
  unfolding on_ending
  on_ending-held text done w = holding.shutdown w
  on_ending-held text (listen_failed e) w = refl

  listen-held : (addr text : String) (w : W) → held (listen sys addr text w).1 ≡ held w
  unfolding listen
  listen-held addr text w =
      on_ending-held text (sys.wait addr w).0 (sys.wait addr w).1 ∙ holding.wait addr w

  with_pool-held :
      (dsn : String) (rest : Exec W (Unit {0}))
      → ((w : W) → held (rest w).1 ≡ held w)
      → (w : W) → held (with_pool sys dsn rest w).1 ≡ held w
  unfolding with_pool
  with_pool-held dsn rest keeps w =
      let w1 = (sys.parse_config dsn w).1 in
      elim (Result-cases (sys.parse_config dsn w).0) [
        | inr (e, p) ↦ rw p (holding.parse_config dsn w)
        | inl (u, p) ↦ rw p (elim (Result-cases (sys.new_pool w1).0) [
          | inr (e, q) ↦ rw q (holding.no_pool w1 (λ f. cc) ∙ holding.parse_config dsn w)
          | inl (v, q) ↦ rw q (
              holding.close_pool (held w1) (rest (sys.new_pool w1).1).1
                (keeps (sys.new_pool w1).1 ∙ holding.new_pool w1 q)
              ∙ holding.parse_config dsn w)
        ])
      ]

  -- When either server ends, after whatever error or none, it has closed what it had opened: the
  -- pool, the Redis client and the hub, in the reverse order of opening them. Closing is known to
  -- work in that order only, and a pool that fails to open holds nothing.
  pub releases_all :
      (cfg : Config) (w : W)
      → (held (start_api_server sys cfg w).1 ≡ held w)
        × (held (start_websocket_server sys cfg w).1 ≡ held w)
  unfolding start_api_server start_websocket_server
  releases_all cfg w = (
    with_pool-held cfg.postgres.dsn _
        (λ w1. holding.close_redis (held w1) _ (
          listen-held (address cfg.http) "server shutdown" (sys.new_redis cfg.redis w1)
          ∙ holding.new_redis cfg.redis w1))
        w,
    with_pool-held cfg.postgres.dsn _
        (λ w1.
          let w2 = sys.new_redis cfg.redis w1 in
          holding.close_redis (held w1) _ (
            holding.cancel_hub (held w2) _ (
              listen-held (address cfg.websocket) "websocket server shutdown" (sys.start_hub w2)
              ∙ holding.start_hub w2)
            ∙ holding.new_redis cfg.redis w1))
        w,
  )
