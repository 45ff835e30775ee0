-- ===== src/Server/Wiring.antt =====
-- What startAPIServer and startWebsocketServer in cmd/server/main.go put together: the services over
-- the repositories of PostgreSQL and the client of Redis. The use cases hold the services and nothing else.
pub mod Trusted
pub mod Direct
pub mod Members
use chatter_stack.Base.{ℕ, String, List, some}
use chatter_stack.Exec.{Result, Exec}
use chatter_stack.Models.{Room, RoomMember}
use chatter_stack.Auth
use chatter_stack.Users
use chatter_stack.Rooms
use chatter_stack.Messages
use chatter_stack.Utils.{Crypto}
use chatter_stack.Config.{Config}
use chatter_stack.Redis
use chatter_stack.Postgres.{Db, Env}
use chatter_stack.Postgres.UserRepo
use chatter_stack.Postgres.RoomRepo
use chatter_stack.Postgres.MessageRepo
use chatter_stack.Http.Router.{Services}

-- The database, and the state `K` of Redis.
pub record Node (K : Type 0) : Type 0 where
  pub db : Db
  pub redis : K

module _ {K : Type 0} where
  -- A call of the pool leaves Redis alone, and a call of Redis the database.
  abbrev pub on_db : {A : Type 0} → Exec Db A → Exec (Node K) A
  on_db m n = ((m n.db).0, record n { db = (m n.db).1 })

  abbrev pub on_redis : {A : Type 0} → Exec K A → Exec (Node K) A
  on_redis m n = ((m n.redis).0, record n { redis = (m n.redis).1 })

-- The libraries below the services: cryptography, the Unicode table of `strings.ToLower`, JSON, the
-- order of a map, and the clock.
pub record Libraries (K : Type 0) : Type 0 where
  pub crypto : Crypto (Node K)
  pub to_lower : String → String
  pub marshal_room : Room → Result String
  pub marshal_event : Messages.RoomEvent → Result String
  pub iterate : List RoomMember → List RoomMember
  pub now : Node K → ℕ

module _ {K S : Type 0} (env : Env) (client : Redis.Client K S) (libraries : Libraries K) where
  user_repo : Auth.UserRepository (Node K)
  user_repo = record {
    create = λ u. on_db (UserRepo.create env u);
    get_by_email = λ email. on_db (UserRepo.get_by_email env email);
    get_by_id = λ id. on_db (UserRepo.get_by_id env id);
    update_status = λ id status seen. on_db (UserRepo.update_status env id status seen);
  }

  room_repo : Rooms.RoomRepository (Node K)
  room_repo =
      let repo = RoomRepo.repository env in
      record {
        create = λ room members. on_db (repo.create room members);
        add_member = λ m. on_db (repo.add_member m);
        remove_member = λ room user. on_db (repo.remove_member room user);
        list_members = λ room. on_db (repo.list_members room);
        search = λ user text limit. on_db (repo.search user text limit);
        find_direct_room = λ p q. on_db (repo.find_direct_room p q);
        get_by_id = λ id. on_db (repo.get_by_id id);
        delete = λ id. on_db (repo.delete id);
      }

  message_repo : Messages.MessageRepository (Node K)
  message_repo =
      let repo = MessageRepo.repository env in
      record {
        create = λ m. on_db (repo.create m);
        list_by_room = λ room limit offset. on_db (repo.list_by_room room limit offset);
        list_around = λ room id before after. on_db (repo.list_around room id before after);
        update_status = λ id status. on_db (repo.update_status id status);
        upsert_receipt = λ receipt. on_db (repo.upsert_receipt receipt);
        search = λ user room text limit. on_db (repo.search user room text limit);
        get_by_id = λ id. on_db (repo.get_by_id id);
        update_content = λ id content. on_db (repo.update_content id content);
        delete = λ id. on_db (repo.delete id);
      }

  cache : Auth.TokenCache (Node K)
  cache =
      let cache = Redis.new_cache client in
      record {
        get = λ key. on_redis (cache.get key);
        set = λ key value ttl. on_redis (cache.set key value ttl);
        delete = λ key. on_redis (cache.delete key);
      }

  publish : Rooms.Publisher (Node K)
  publish channel payload = on_redis (client.publish channel payload)

  unfoldable pub services : Config → Services (Node K)
  unfolding user_repo room_repo message_repo cache publish
  services cfg = record {
    auth = record {
      users = user_repo;
      cache = cache;
      access_ttl = cfg.jwt.access_ttl;
      refresh_ttl = cfg.jwt.refresh_ttl;
      crypto = libraries.crypto;
      now = libraries.now;
      to_lower = libraries.to_lower;
    };
    users = record {
      repo = record {
        get_by_id = user_repo.get_by_id;
        get_by_email = user_repo.get_by_email;
        update_status = user_repo.update_status;
      };
      now = libraries.now;
    };
    rooms = record {
      repo = room_repo;
      pub_sub = some publish;
      marshal = libraries.marshal_room;
      iterate = libraries.iterate;
    };
    messages = record {
      repo = message_repo;
      pub_sub = some publish;
      marshal = libraries.marshal_event;
      now = libraries.now;
    };
  }
