-- ===== src/Config/Loaded.antt =====
-- What `Load` of internal/config/config.go promises of the limits of the requests.
use chatter_stack.Base.{
  ℕ, ◌<◌, ℤ, pos, negsuc, pos_part, ltb_ℤ, IsInt, atoi, atoi-IsInt, itoa, atoi-itoa, String, ◌≡◌,
  true, false, refl, sym, ap, ◌∙◌, Option, none, some, arith,
}
use chatter_stack.Config.{Config, System, Loading, loaded, invalid_duration, invalid_integer}
use chatter_stack.Config.{
  ◌>>=◌, integer_of, get_env, parse_int_env, parse_duration_env, settings, load,
}

-- Not negative, and of the range of `int`.
abbrev pub IsCount : ℤ → Type 0
IsCount z = (n : ℕ) × (z ≡ pos n) × (n < 9223372036854775808)

loaded_inj : {A : Type 0} {a b : A} → loaded a ≡ loaded b → a ≡ b
loaded_inj h = cc

bind-loaded :
    {A B : Type 0} (m : Loading A) (f : A → Loading B) (b : B)
    → m >>= f ≡ loaded b
    → (a : A) × (m ≡ loaded a) × (f a ≡ loaded b)
bind-loaded (loaded a) f b h = (a, refl, h)
bind-loaded (invalid_duration key) f b h = cc
bind-loaded (invalid_integer key) f b h = cc

integer_of-IsCount :
    (key : String) (o : Option ℤ) (z : ℤ)
    → ((i : ℤ) → o ≡ some i → IsInt i)
    → integer_of key o ≡ loaded z
    → IsCount z
unfolding integer_of
integer_of-IsCount key none z fits h = cc
integer_of-IsCount key (some (pos n)) z fits h =
    let same : (ltb_ℤ (pos n) (pos 0) ≡ false) = ground arith in
    (n, sym (loaded_inj (sym (rw same refl) ∙ h)), fits (pos n) refl)
integer_of-IsCount key (some (negsuc n)) z fits h =
    let below : ltb_ℤ (negsuc n) (pos 0) ≡ true = ground arith in
    let refused : invalid_integer key ≡ loaded z = sym (rw below refl) ∙ h in cc

module _ {U : Type 0} (sys : System U) where
  parse_int_env-IsCount :
      (key : String) (fallback : ℕ) (z : ℤ) → parse_int_env sys key fallback ≡ loaded z → IsCount z
  unfolding parse_int_env
  parse_int_env-IsCount key fallback z h =
      integer_of-IsCount key (atoi (get_env sys key (itoa fallback))) z
        (atoi-IsInt (get_env sys key (itoa fallback))) h

  parse_int_env_unset :
      (key : String) (n : ℕ)
      → sys.lookup key ≡ none
      → n < 9223372036854775808
      → parse_int_env sys key n ≡ loaded (pos n)
  unfolding parse_int_env get_env integer_of
  parse_int_env_unset key n unset small =
      let not_negative : ltb_ℤ (pos n) (pos 0) ≡ false = ground arith in
      rw (unset, atoi-itoa n small, not_negative) refl

  limits :
      (cfg : Config) (access_ttl refresh_ttl requests burst window : ℤ)
      → sys.lookup "RATE_LIMIT_BURST" ≡ none
      → parse_int_env sys "RATE_LIMIT_REQUESTS" 100 ≡ loaded requests
      → parse_int_env sys "RATE_LIMIT_BURST" (pos_part requests) ≡ loaded burst
      → settings sys access_ttl refresh_ttl requests burst window ≡ cfg
      → IsCount cfg.rate_limit.requests × (cfg.rate_limit.burst ≡ cfg.rate_limit.requests)
  unfolding settings
  limits cfg access_ttl refresh_ttl requests burst window unset r b h =
      let (n, e, small) = parse_int_env-IsCount "RATE_LIMIT_REQUESTS" 100 requests r in
      let same : burst ≡ requests =
        loaded_inj (sym b ∙ rw e (parse_int_env_unset "RATE_LIMIT_BURST" n unset small)) in
      let of_requests = ap (λ c. c.rate_limit.requests) h in
      let of_burst = ap (λ c. c.rate_limit.burst) h in
      ((n, sym of_requests ∙ e, small), sym of_burst ∙ same ∙ of_requests)

  -- If `Load` succeeds while RATE_LIMIT_BURST is not set, the limit of requests is not negative
  -- and fits an `int`, and the burst is that limit, although it is printed as a default and read
  -- again.
  pub burst_of_requests :
      (cfg : Config)
      → sys.lookup "RATE_LIMIT_BURST" ≡ none
      → load sys ≡ loaded cfg
      → IsCount cfg.rate_limit.requests × (cfg.rate_limit.burst ≡ cfg.rate_limit.requests)
  unfolding load settings
  burst_of_requests cfg unset h =
      let (access_ttl, _, h1) =
        bind-loaded (parse_duration_env sys "JWT_ACCESS_TTL" "1h") _ cfg h in
      let (refresh_ttl, _, h2) =
        bind-loaded (parse_duration_env sys "JWT_REFRESH_TTL" "168h") _ cfg h1 in
      let (requests, r, h3) = bind-loaded (parse_int_env sys "RATE_LIMIT_REQUESTS" 100) _ cfg h2 in
      let (burst, b, h4) =
        bind-loaded (parse_int_env sys "RATE_LIMIT_BURST" (pos_part requests)) _ cfg h3 in
      let (window, _, h5) =
        bind-loaded (parse_duration_env sys "RATE_LIMIT_WINDOW" "1m") _ cfg h4 in
      limits cfg access_ttl refresh_ttl requests burst window unset r b (loaded_inj h5)
