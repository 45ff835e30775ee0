-- ===== src/Config.antt =====
-- internal/config/config.go: the settings that the program reads from its environment.
pub mod Loaded
pub mod Tests
use Prim.Native.Char.{code}
use chatter_stack.Base.{
  ℕ, ℤ, pos, pos_part, ltb_ℤ, atoi, itoa, cat, eqb, String, Bool, true, false, ◌&&◌, ◌||◌, ◌==◌,
  Option, none, some, if◌then◌else◌,
}

-- The configuration; a duration is in nanoseconds.
pub record HttpConfig : Type 0 where
  pub host : String
  pub port : String

pub record PostgresConfig : Type 0 where
  pub dsn : String

pub record RedisConfig : Type 0 where
  pub addr : String
  pub password : String

pub record JwtConfig : Type 0 where
  pub access_secret : String
  pub access_ttl : ℤ
  pub refresh_secret : String
  pub refresh_ttl : ℤ

pub record RateLimitConfig : Type 0 where
  pub requests : ℤ
  pub burst : ℤ
  pub window : ℤ

pub record Config : Type 0 where
  pub app_env : String
  pub http : HttpConfig
  pub websocket : HttpConfig
  pub postgres : PostgresConfig
  pub redis : RedisConfig
  pub jwt : JwtConfig
  pub rate_limit : RateLimitConfig

-- HTTPConfig.Address and WebsocketConfig.Address
unfoldable pub address : HttpConfig → String
address c = cat c.host (cat ":" c.port)

-- What an error says: the variable whose value was no duration, or no integer.
pub data Loading (A : Type 0) : Type 0 where
  loaded : A → Loading A
  invalid_duration invalid_integer : String → Loading A

infixl 10 ◌>>=◌
abbrev pub ◌>>=◌ : {A B : Type 0} → Loading A → (A → Loading B) → Loading B
loaded a >>= f = f a
invalid_duration key >>= f = invalid_duration key
invalid_integer key >>= f = invalid_integer key

-- A URL of net/url: the host of its authority without the port, the first value of "sslmode" in its
-- query, the URL with that value set, and its text.
pub record Url (U : Type 0) : Type 0 where
  pub parse : String → Option U
  pub hostname : U → String
  pub sslmode : U → String
  pub set_sslmode : String → U → U
  pub text : U → String

-- The environment, time.ParseDuration, url.QueryEscape and net/url.
pub record System (U : Type 0) : Type 0 where
  pub lookup : String → Option String
  pub parse_duration : String → Option ℤ
  pub query_escape : String → String
  pub url : Url U

abbrev value_or : String → Option String → String
value_or fallback none = fallback
value_or fallback (some v) = if eqb v "" then fallback else v

-- os.Getenv
abbrev or_empty : Option String → String
or_empty none = ""
or_empty (some v) = v

-- strings.HasPrefix
unfoldable pub has_prefix : String → String → Bool
has_prefix s String.[] = true
has_prefix String.[] (String.◌∷◌ d p) = false
has_prefix (String.◌∷◌ c s) (String.◌∷◌ d p) = code c == code d && has_prefix s p

abbrev is_local : String → Bool
is_local host = eqb host "localhost" || eqb host "127.0.0.1"

abbrev duration_of : String → Option ℤ → Loading ℤ
duration_of key none = invalid_duration key
duration_of key (some d) = loaded d

unfoldable pub integer_of : String → Option ℤ → Loading ℤ
integer_of key none = invalid_integer key
integer_of key (some i) = if ltb_ℤ i (pos 0) then invalid_integer key else loaded i

module _ {U : Type 0} (sys : System U) where
  unfoldable pub get_env : String → String → String
  get_env key fallback = value_or fallback (sys.lookup key)

  pub parse_duration_env : String → String → Loading ℤ
  parse_duration_env key fallback = duration_of key (sys.parse_duration (get_env key fallback))

  -- The fallback is not negative.
  unfoldable pub parse_int_env : String → ℕ → Loading ℤ
  unfolding get_env integer_of
  parse_int_env key fallback = integer_of key (atoi (get_env key (itoa fallback)))

  with_sslmode : U → String
  unfolding has_prefix
  with_sslmode u =
      let host = sys.url.hostname u in
      let ssl = if is_local host || has_prefix host "unix:" then "disable" else "require" in
      if eqb (sys.url.sslmode u) ""
      then sys.url.text (sys.url.set_sslmode ssl u)
      else sys.url.text u

  ensured : String → Option U → String
  unfolding with_sslmode
  ensured dsn none = dsn
  ensured dsn (some u) = with_sslmode u

  unfoldable pub ensure_ssl_mode : String → String
  unfolding ensured
  ensure_ssl_mode dsn = ensured dsn (sys.url.parse dsn)

  -- The sslmode of a connection that is put together from its parts.
  chosen_sslmode : String → String → String
  chosen_sslmode sslmode host =
      if eqb sslmode "" then (if is_local host then "disable" else "require") else sslmode

  dsn_of_parts : String
  unfolding get_env chosen_sslmode
  dsn_of_parts =
      let user = get_env "POSTGRES_USER" "chatterstack" in
      let set_pass = or_empty (sys.lookup "POSTGRES_PASSWORD") in
      let pass = if eqb set_pass "" then get_env "POSTGRES_PASSWORD" "chatterstack" else set_pass in
      let host = get_env "POSTGRES_HOST" "localhost" in
      let db = get_env "POSTGRES_DB" "chatterstack" in
      let sslmode = chosen_sslmode (get_env "POSTGRES_SSLMODE" "") host in
      cat "postgres://" (
        cat (sys.query_escape user) (
          cat ":" (
            cat (sys.query_escape pass)
              (cat "@" (cat host (cat ":5432/" (cat db (cat "?sslmode=" sslmode))))))))

  pub dsn : String
  unfolding ensure_ssl_mode dsn_of_parts
  dsn =
      let set = or_empty (sys.lookup "POSTGRES_DSN") in
      if eqb set "" then dsn_of_parts else ensure_ssl_mode set

  -- The record that `Load` fills.
  unfoldable pub settings : ℤ → ℤ → ℤ → ℤ → ℤ → Config
  unfolding get_env dsn
  settings access_ttl refresh_ttl requests burst window = record {
    app_env = get_env "APP_ENV" "development";
    http = record { host = get_env "HTTP_HOST" "0.0.0.0"; port = get_env "HTTP_PORT" "8080" };
    websocket = record {
      host = get_env "WEBSOCKET_HOST" "0.0.0.0";
      port = get_env "WEBSOCKET_PORT" "8081";
    };
    postgres = record { dsn = dsn };
    redis = record {
      addr = get_env "REDIS_ADDR" "localhost:6379";
      password = or_empty (sys.lookup "REDIS_PASSWORD");
    };
    jwt = record {
      access_secret = get_env "JWT_ACCESS_SECRET" "change-me";
      access_ttl = access_ttl;
      refresh_secret = get_env "JWT_REFRESH_SECRET" "change-me-too";
      refresh_ttl = refresh_ttl;
    };
    rate_limit = record { requests = requests; burst = burst; window = window };
  }

  unfoldable pub load : Loading Config
  unfolding parse_duration_env parse_int_env settings
  load = do
    access_ttl ← parse_duration_env "JWT_ACCESS_TTL" "1h"
    refresh_ttl ← parse_duration_env "JWT_REFRESH_TTL" "168h"
    requests ← parse_int_env "RATE_LIMIT_REQUESTS" 100
    burst ← parse_int_env "RATE_LIMIT_BURST" (pos_part requests)
    window ← parse_duration_env "RATE_LIMIT_WINDOW" "1m"
    loaded (settings access_ttl refresh_ttl requests burst window)
