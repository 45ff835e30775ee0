-- ===== src/Config/Tests.antt =====
-- A program that is started with a limit of requests and the address of its database.
use chatter_stack.Base.{
  ℤ, pos, atoi, itoa, eqb, String, ◌≡◌, refl, Option, none, some, if◌then◌else◌,
}
use chatter_stack.Config.{Config, System, Url, loaded, invalid_integer, address, load}
use chatter_stack.Config.{ensure_ssl_mode, settings}
use chatter_stack.Config.Loaded.{IsCount, burst_of_requests}

-- A URL is its host and its sslmode; of durations the defaults are known.
abbrev urls : Url (String × String)
urls = record {
  parse = λ s. if eqb s "postgres://db/chat" then some ("db", "") else none;
  hostname = λ u. u.0;
  sslmode = λ u. u.1;
  set_sslmode = λ m u. (u.0, m);
  text =
      λ u. if eqb u.1 "require" then "postgres://db/chat?sslmode=require" else "postgres://db/chat";
}

abbrev duration : String → Option ℤ
duration s =
    if eqb s "1h"
    then some (pos 3600000000000)
    else if eqb s "168h"
    then some (pos 604800000000000)
    else if eqb s "1m"
    then some (pos 60000000000)
    else none

abbrev variables : String → String → Option String
variables requests key =
    if eqb key "RATE_LIMIT_REQUESTS"
    then some requests
    else if eqb key "POSTGRES_DSN"
    then some "postgres://db/chat"
    else none

abbrev system : String → System (String × String)
system requests = record {
  lookup = variables requests;
  parse_duration = duration;
  query_escape = λ s. s;
  url = urls;
}

abbrev pub configured : Config
configured =
    settings (system "250") (pos 3600000000000) (pos 604800000000000) (pos 250) (pos 250)
      (pos 60000000000)

loads : load (system "250") ≡ loaded configured
unfolding load atoi itoa
loads = refl

no_number : load (system "-1") ≡ invalid_integer "RATE_LIMIT_REQUESTS"
unfolding load atoi
no_number = refl

listens : address configured.http ≡ "0.0.0.0:8080"
unfolding address settings
listens = refl

remote_needs_ssl :
    ensure_ssl_mode (system "250") "postgres://db/chat" ≡ "postgres://db/chat?sslmode=require"
unfolding ensure_ssl_mode
remote_needs_ssl = refl

burst_of_requests_example :
    IsCount configured.rate_limit.requests
    × (configured.rate_limit.burst ≡ configured.rate_limit.requests)
burst_of_requests_example = burst_of_requests (system "250") configured refl loads
