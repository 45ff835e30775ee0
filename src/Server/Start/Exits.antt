-- ===== src/Server/Start/Exits.antt =====
-- When the process of cmd/server/main.go ends without an error.
use chatter_stack.Base.{String, ◌≡◌, refl, ◌⊎◌, inl, inr, eqb, eq_iff, Bool-cases}
use chatter_stack.Exec.{Result, ok, err, Exec, Result-cases}
use chatter_stack.Config.{Config, Loading, loaded, invalid_duration, invalid_integer, address}
use chatter_stack.Server.Start.{
  Ending, done, listen_failed, System, on_ending, listen, with_pool, start_api_server,
  start_websocket_server, finished, exit_of, start, main,
}

module _ {W : Type 0} (sys : System W) where
  -- The server on this address was told to end, and its shutdown succeeded.
  abbrev pub EndedWell : String → Type 0
  EndedWell addr =
      (w : W) × ((sys.wait addr w).0 ≡ done) × ((sys.shutdown (sys.wait addr w).1).0 ≡ ok tt)

  on_ending-ok :
      (text : String) (e : Ending) (w : W)
      → (on_ending sys text (e, w)).0 ≡ ok tt
      → (e ≡ done) × ((sys.shutdown w).0 ≡ ok tt)
  unfolding on_ending
  on_ending-ok text done w h = elim (Result-cases (sys.shutdown w).0) [
    | inl (u, p) ↦ (refl, p)
    | inr (e, p) ↦ absurd (let f = rw p at h in cc)
  ]
  on_ending-ok text (listen_failed e) w h = cc

  listen-ok : (addr text : String) (w : W) → (listen sys addr text w).0 ≡ ok tt → EndedWell addr
  unfolding listen
  listen-ok addr text w h =
      let (e, s) = on_ending-ok text (sys.wait addr w).0 (sys.wait addr w).1 h in (w, e, s)

  with_pool-ok :
      (dsn : String) (rest : Exec W (Unit {0})) (w : W)
      → (with_pool sys dsn rest w).0 ≡ ok tt
      → (w1 : W) × ((rest w1).0 ≡ ok tt)
  unfolding with_pool
  with_pool-ok dsn rest w h =
      let w1 = (sys.parse_config dsn w).1 in
      elim (Result-cases (sys.parse_config dsn w).0) [
        | inr (e, p) ↦ absurd (let f = rw p at h in cc)
        | inl (u, p) ↦ elim (Result-cases (sys.new_pool w1).0) [
          | inr (e, q) ↦ absurd (let f = rw (p, q) at h in cc)
          | inl (v, q) ↦ ((sys.new_pool w1).1, rw (p, q) at h)
        ]
      ]

  exit_of-finished : (mode : String) (r : Result (Unit {0})) → exit_of mode r ≡ finished → r ≡ ok tt
  unfolding exit_of
  exit_of-finished mode (ok u) h = refl
  exit_of-finished mode (err e) h = cc

  api-ok :
      (cfg : Config) (w : W) → (start_api_server sys cfg w).0 ≡ ok tt → EndedWell (address cfg.http)
  unfolding start_api_server
  api-ok cfg w h =
      let (w1, e) = with_pool-ok cfg.postgres.dsn _ w h in
      listen-ok (address cfg.http) "server shutdown" _ e

  websocket-ok :
      (cfg : Config) (w : W)
      → (start_websocket_server sys cfg w).0 ≡ ok tt
      → EndedWell (address cfg.websocket)
  unfolding start_websocket_server
  websocket-ok cfg w h =
      let (w1, e) = with_pool-ok cfg.postgres.dsn _ w h in
      listen-ok (address cfg.websocket) "websocket server shutdown" _ e

  start-finished :
      (mode : String) (cfg : Config) (w : W)
      → (start sys mode cfg w).0 ≡ finished
      → ((mode ≡ "api") × EndedWell (address cfg.http))
        ⊎ ((mode ≡ "websocket") × EndedWell (address cfg.websocket))
  unfolding start
  start-finished mode cfg w h = elim (Bool-cases (eqb mode "api")) [
    | inl e ↦ inl ((eq_iff mode "api").0 e, api-ok cfg w (exit_of-finished mode _ (rw e at h)))
    | inr e ↦ elim (Bool-cases (eqb mode "websocket")) [
      | inl f ↦ inr (
        (eq_iff mode "websocket").0 f,
        websocket-ok cfg w (exit_of-finished mode _ (rw (e, f) at h)),
      )
      | inr f ↦ absurd (let g = rw (e, f) at h in cc)
    ]
  ]

  -- .
  pub main_finishes :
      (mode : String) (loading : Loading Config) (w : W)
      → (main sys mode loading w).0 ≡ finished
      → (cfg : Config) × (loading ≡ loaded cfg)
        × (((mode ≡ "api") × EndedWell (address cfg.http))
            ⊎ ((mode ≡ "websocket") × EndedWell (address cfg.websocket)))
  unfolding main
  main_finishes mode (loaded cfg) w h = (cfg, refl, start-finished mode cfg w h)
  main_finishes mode (invalid_duration key) w h = cc
  main_finishes mode (invalid_integer key) w h = cc
