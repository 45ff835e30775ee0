-- ===== src/Server/Start.antt =====
-- main, startAPIServer and startWebsocketServer in cmd/server/main.go: what is opened, how the server
-- ends, and what the deferred calls close. The routes of the API are Server/Api, the handler of /ws is
-- Connect, and the pings are Server/Ping.
pub mod Release
pub mod Exits
use chatter_stack.Base.{String, cat, Bool, eqb, if◌then◌else◌}
use chatter_stack.Errors.{Error, other, error_text}
use chatter_stack.Exec.{Result, ok, err, Exec, fail, map_err, ◌>>◌}
use chatter_stack.Config.{
  Config, RedisConfig, address, Loading, loaded, invalid_duration, invalid_integer,
}

-- What the `select` at the end of a server receives: the context is done, or ListenAndServe has failed.
pub data Ending : Type 0 where
  done : Ending
  listen_failed : Error → Ending

-- pgxpool.ParseConfig and NewWithConfig, redis.NewClient, their Close, the `select`, the Shutdown of the
-- HTTP server, and the start and the cancelling of the hub with its relay.
pub record System (W : Type 0) : Type 0 where
  pub parse_config : String → Exec W (Unit {0})
  pub new_pool : Exec W (Unit {0})
  pub close_pool : W → W
  pub new_redis : RedisConfig → W → W
  pub close_redis : W → W
  pub start_hub : W → W
  pub cancel_hub : W → W
  pub wait : String → W → Ending × W
  pub shutdown : Exec W (Unit {0})

-- fmt.Errorf("…: %w", err)
abbrev pub wrap : String → Error → Error
wrap text e = other (cat text (cat ": " (error_text e)))

module _ {W : Type 0} where
  -- `defer close()` in front of the rest of a function.
  abbrev pub defer {ℓ} : {A : Type ℓ} → (W → W) → (W → A × W) → W → A × W
  defer close rest w = ((rest w).0, close (rest w).1)

  module _ (sys : System W) where
    on_ending : String → Ending × W → Result (Unit {0}) × W
    on_ending text (done, w) = map_err (wrap text) sys.shutdown w
    on_ending text (listen_failed e, w) = fail e w

    -- From the start of the HTTP server on an address; `text` is what an error of Shutdown is wrapped in.
    listen : String → String → Exec W (Unit {0})
    unfolding on_ending
    listen addr text w = on_ending text (sys.wait addr w)

    -- Both servers open the database in this way.
    with_pool : String → Exec W (Unit {0}) → Exec W (Unit {0})
    with_pool dsn rest =
        map_err (wrap "parse postgres dsn") (sys.parse_config dsn)
        >> (map_err (wrap "connect postgres") sys.new_pool >> defer sys.close_pool rest)

    unfoldable pub start_api_server : Config → Exec W (Unit {0})
    unfolding with_pool listen
    start_api_server cfg = with_pool cfg.postgres.dsn (λ w.
        defer sys.close_redis (listen (address cfg.http) "server shutdown")
          (sys.new_redis cfg.redis w))

    unfoldable pub start_websocket_server : Config → Exec W (Unit {0})
    unfolding with_pool listen
    start_websocket_server cfg = with_pool cfg.postgres.dsn (λ w.
        defer sys.close_redis
          (λ w1.
            defer sys.cancel_hub (listen (address cfg.websocket) "websocket server shutdown")
              (sys.start_hub w1))
          (sys.new_redis cfg.redis w))

-- How the process ends: main returns, or log.Fatalf ends it.
pub data Exit : Type 0 where
  finished bad_config : Exit
  unknown_mode : String → Exit
  server_error : String → Error → Exit

exit_of : String → Result (Unit {0}) → Exit
exit_of mode (ok u) = finished
exit_of mode (err e) = server_error mode e

module _ {W : Type 0} (sys : System W) where
  start : String → Config → W → Exit × W
  unfolding exit_of
  start mode cfg w =
      let (r, w1) = start_api_server sys cfg w in
      let (r', w1') = start_websocket_server sys cfg w in
      if eqb mode "api"
      then (exit_of mode r, w1)
      else if eqb mode "websocket"
      then (exit_of mode r', w1')
      else (unknown_mode mode, w)

  -- `mode` is the flag, and `loading` what config.Load returns.
  unfoldable pub main : String → Loading Config → W → Exit × W
  unfolding start
  main mode (loaded cfg) w = start mode cfg w
  main mode (invalid_duration key) w = (bad_config, w)
  main mode (invalid_integer key) w = (bad_config, w)
