-- ===== src/Server/Tests.antt =====
-- A server over the small database of Postgres/Tests and the Redis of Redis/Tests.
use chatter_stack.Base.{
  ◌*◌, String, cat, ◌≡◌, refl, true, false, Bool, Option, none, some, List, [], ◌∷◌, ◌⊎◌, eqb,
  trim_space, if◌then◌else◌, ◌&&◌,
}
use chatter_stack.Errors.{other}
use chatter_stack.Exec.{Exec, Result, ok}
use chatter_stack.Models.{Room}
use chatter_stack.Auth
use chatter_stack.Auth.Keys.{access_key}
use chatter_stack.Auth.Cache.{Keeps}
use chatter_stack.Rooms.{ensure_direct_room}
use chatter_stack.Rooms.Tests.{room_code}
use chatter_stack.Utils.{generate_opaque_token}
use chatter_stack.Config.{Config, Loading, loaded, address}
use chatter_stack.Config.Tests.{configured}
use chatter_stack.Postgres.{in_micros}
use chatter_stack.Postgres.Tests.{env, env-IsSound, postgres_code}
use chatter_stack.Redis.Tests.{Kv, client, view, new_cache-IsCache}
use chatter_stack.Middleware.Bearer.{request_token}
use chatter_stack.Http.Router.{Services, Call, is_protected, handle}
use chatter_stack.Http.Router.Answering.{IsServed}
use chatter_stack.Middleware.RateLimit.Tests.{twice}
use chatter_stack.Server.Dsn.{Userinfo, Url, Urls, mask_dsn}
use chatter_stack.Server.Dsn.Hiding.{mask_dsn_hides}
use chatter_stack.Server.Ping.{second, answered, succeeded, ping}
use chatter_stack.Server.Ping.Backoff.{failures, schedule, ending, ping_ends}
use chatter_stack.Server.Start.{
  Ending, done, listen_failed, System, start_api_server, start_websocket_server, main,
}
use chatter_stack.Server.Start.Release.{Resource, IsHolding, releases_all}
use chatter_stack.Server.Start.Exits.{EndedWell, main_finishes}
use chatter_stack.Server.Wiring.{Node, Libraries, services}
use chatter_stack.Server.Wiring.Direct.{direct_room_again}
use chatter_stack.Server.Wiring.Trusted.{redis_view, services-IsWorld}
use chatter_stack.Server.Wiring.Members.{services-list_members}
use chatter_stack.Auth.Tests.{auth_code}
use chatter_stack.Users
use chatter_stack.Rooms
use chatter_stack.Client.{is_member, authorizes, filter_authorized_rooms}
use chatter_stack.Middleware.Bearer
use chatter_stack.Connect
use chatter_stack.Connect.{connect}
use chatter_stack.Connect.Authorized.{connected_is_authorized}
use chatter_stack.Postgres.RoomRepo
use chatter_stack.Postgres.UserRepo
use chatter_stack.Server.Api.{Incoming, api}
use chatter_stack.Server.Api.Entry.{api-IsServed, api_needs_token}

-- A URL is its user; the text shows the password.
shown_password : Option String → String
shown_password none = ""
shown_password (some p) = cat ":" p

shown_user : Option Userinfo → String
unfolding shown_password
shown_user none = ""
shown_user (some u) = cat u.username (shown_password u.password)

user_url : String → Url String
user_url password = record {
  user = some (record { username = "chat"; password = some password });
  rest = "require";
}

abbrev urls : Urls String
urls = record {
  parse = λ s.
      if eqb s "postgres://chat:old@db"
      then some (user_url "old")
      else if eqb s "postgres://chat:new@db"
      then some (user_url "new")
      else none;
  sslmode = λ rest. rest;
  text = λ u. shown_user u.user;
}

masked_text : mask_dsn urls "postgres://chat:old@db" ≡ ("chat:****", "require")
unfolding mask_dsn shown_user user_url
masked_text = refl

mask_dsn_hides_example :
    mask_dsn urls "postgres://chat:old@db" ≡ mask_dsn urls "postgres://chat:new@db"
unfolding user_url
mask_dsn_hides_example =
    mask_dsn_hides urls "postgres://chat:old@db" "postgres://chat:new@db" (user_url "old")
      (user_url "new") refl refl refl refl

ping_ends_example : ping (failures 6 (answered ∷ [])) ≡ (schedule 0 6, succeeded)
ping_ends_example = ping_ends 6 answered [] (λ e. cc)

sixth_wait :
    schedule 0 6 ≡ second ∷ 2 * second ∷ 4 * second ∷ 8 * second ∷ 16 * second ∷ 16 * second ∷ []
sixth_wait = refl

-- The world is what is open. The server ends as it is told.
drop_first : List Resource → List Resource
drop_first [] = []
drop_first (r ∷ held) = held

abbrev system : Ending → System (List Resource)
system ending = record {
  parse_config = λ dsn w. (ok tt, w);
  new_pool = λ w. (ok tt, Resource.pool ∷ w);
  close_pool = drop_first;
  new_redis = λ cfg w. Resource.redis_client ∷ w;
  close_redis = drop_first;
  start_hub = λ w. Resource.hub ∷ w;
  cancel_hub = drop_first;
  wait = λ addr w. (ending, w);
  shutdown = λ w. (ok tt, w);
}

held : List Resource → List Resource
held w = w

system-IsHolding : (ending : Ending) → IsHolding held (system ending)
unfolding held drop_first
system-IsHolding ending = record {
  parse_config = λ dsn w. refl;
  new_pool = λ w e. refl;
  no_pool = λ w ne. absurd (ne refl);
  close_pool = λ l w e. rw e refl;
  new_redis = λ cfg w. refl;
  close_redis = λ l w e. rw e refl;
  start_hub = λ w. refl;
  cancel_hub = λ l w e. rw e refl;
  wait = λ addr w. refl;
  shutdown = λ w. refl;
}

abbrev busy : Ending
busy = listen_failed (other "address already in use")

releases_all_example :
    (held (start_api_server (system busy) configured []).1 ≡ [])
    × (held (start_websocket_server (system busy) configured []).1 ≡ [])
unfolding held
releases_all_example = releases_all (system busy) (system-IsHolding busy) configured []

main_finishes_at_work :
    (cfg : Config) × (◌≡◌ {A = Loading Config} (loaded configured) (loaded cfg))
    × (((◌≡◌ {A = String} "websocket" "api") × EndedWell (system done) (address cfg.http))
        ⊎ ((◌≡◌ {A = String} "websocket" "websocket")
            × EndedWell (system done) (address cfg.websocket)))
unfolding main start_websocket_server
main_finishes_at_work = main_finishes (system done) "websocket" (loaded configured) [] refl

abbrev libraries : Libraries Kv
libraries = record {
  crypto = record {
    generate = λ p n. (ok (cat "#" p), n);
    compare = λ hash p. ok tt;
    random = λ n. (ok (1 ∷ []), n);
  };
  to_lower = λ s. s;
  marshal_room = λ r. ok r.id;
  marshal_event = λ e. ok "";
  iterate = λ ms. ms;
  now = λ n. n.db.calls;
}

libraries-drawn :
    (prefix : String) (n : Node Kv)
    → Keeps (redis_view view) n (generate_opaque_token libraries.crypto prefix n).1
unfolding generate_opaque_token
libraries-drawn prefix n = record { at = λ k v h. h }

abbrev node : Node Kv
node = record {
  db = record {
    tables = record { users = []; rooms = []; members = []; messages = []; receipts = [] };
    calls = 0;
  };
  redis = record { entries = ("auth:access:t", "u1") ∷ []; open_subs = 1 };
}

abbrev visit : Incoming
visit = record {
  method = "GET";
  origin = "";
  authorization = "Bearer t";
  auth_token = "";
  client_ip = "10.0.0.1";
  call = Call.list_members;
  request = record { param = λ name. "r1"; query = λ name. ""; user_id = none };
}

api-IsServed_example :
    IsServed
      (api [] twice
        (services env (client (ok tt)) libraries configured)
        visit
        1
        ([], node)).0.response
api-IsServed_example =
    api-IsServed [] twice (services env (client (ok tt)) libraries configured) visit 1 ([], node)

api_needs_token_example :
    let svc = services env (client (ok tt)) libraries configured in
    let (answer, (visitors, n)) = api [] twice svc visit 1 ([], node) in
    ((visit.method ≡ "OPTIONS") × (answer.response.status ≡ 200) × (visitors ≡ []) × (n ≡ node))
    ⊎ ((answer.response.status ≡ 429) × (n ≡ node))
    ⊎ (answer.response.status ≡ 401)
    ⊎ ((id : String) × (view node.redis
            (access_key (trim_space (request_token visit.authorization visit.auth_token)))
          ≡ some id)
        × ((answer.response, n)
            ≡ handle svc visit.call
                (record visit.request { user_id = some id })
                (Auth.validate_access_token svc.auth
                  (request_token visit.authorization visit.auth_token)
                  node).1))
unfolding is_protected
api_needs_token_example =
    api_needs_token [] twice env (client (ok tt)) libraries new_cache-IsCache libraries-drawn
      configured visit 1 [] node refl

abbrev asked : Result (Room × Bool) × Node Kv
asked =
    ensure_direct_room (services env (client (ok tt)) libraries configured).rooms "ann" "bob" node

abbrev dm : Room
dm = record { id = "y"; name = "dm:ann:bob"; is_group = false; created_by = "ann"; created_at = 2 }

created_first : asked ≡ (ok (dm, true), asked.1)
unfolding room_code postgres_code services
created_first = refl

direct_room_again_example :
    ((ensure_direct_room
        (services env (client (ok tt)) libraries configured).rooms
        "ann"
        "bob"
        asked.1).0
      ≡ ok (record dm { created_at = 0 }, false))
    × ((ensure_direct_room
          (services env (client (ok tt)) libraries configured).rooms
          "bob"
          "ann"
          asked.1).0
        ≡ ok (record dm { created_at = 0 }, false))
unfolding in_micros
direct_room_again_example =
    direct_room_again env (client (ok tt)) libraries env-IsSound
      (record { roles = λ ms u d. refl; lengths = λ ms. refl }) configured "ann" "bob" dm node
      asked.1 refl refl created_first

-- "ann" is a user, and a member of the room "r1" only.
abbrev joined : Node Kv
joined = record node {
  db = record {
    tables = record {
      users =
          record {
            id = "u1";
            username = "ann";
            email = "a";
            password_hash = "";
            status = "";
            last_seen_at = 0;
            created_at = 1;
          }
          ∷ [];
      rooms = [];
      members = record { id = "m"; room_id = "r1"; user_id = "u1"; role = "member" } ∷ [];
      messages = [];
      receipts = [];
    };
    calls = 0;
  };
}

abbrev svc : Services (Node Kv)
svc = services env (client (ok tt)) libraries configured

abbrev upgrade : Exec (Node Kv) (Unit {0})
upgrade n = (ok tt, n)

abbrev after_upgrade : Node Kv
after_upgrade =
    (connect svc.auth svc.users svc.rooms upgrade "Bearer t" "" ("r1" ∷ "r2" ∷ []) joined).1

connected_is_authorized_example :
    (view joined.redis (access_key "t") ≡ some "u1")
    × (is_member ("r1" ∷ []) "r2" ≡ (
        is_member ("r1" ∷ "r2" ∷ []) "r2"
        && authorizes "u1"
            (Rooms.list_members svc.rooms "r2"
              (Auth.validate_access_token svc.auth
                (Connect.request_token "Bearer t" "")
                joined).1).0))
unfolding auth_code postgres_code services connect Connect.request_token filter_authorized_rooms
    Rooms.list_members authorizes Bearer.extract_bearer_token Users.get_by_id RoomRepo.list_members
    UserRepo.get_by_id chatter_stack.Redis.get
connected_is_authorized_example =
    connected_is_authorized svc.auth svc.users svc.rooms upgrade
      (services-IsWorld env (client (ok tt)) libraries new_cache-IsCache libraries-drawn configured)
      "Bearer t" "" ("r1" ∷ "r2" ∷ []) ("r1" ∷ []) "u1" "ann" "r2" joined after_upgrade
      (services-list_members env (client (ok tt)) libraries configured (λ params db. refl)) refl
