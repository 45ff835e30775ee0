-- ===== src/Server/Wiring/Trusted.antt =====
-- What the authentication relies on, in the servers that cmd/server/main.go puts together.
use chatter_stack.Base.{String}
use chatter_stack.Utils.{generate_opaque_token}
use chatter_stack.Auth.Cache.{View, IsCache, IsWorld, Keeps}
use chatter_stack.Config.{Config}
use chatter_stack.Redis
use chatter_stack.Postgres.{Env}
use chatter_stack.Postgres.Lookup.{get_by_id-id}
use chatter_stack.Server.Wiring.{Node, Libraries, user_repo, cache, services}

-- The entries of Redis.
abbrev pub redis_view : {K : Type 0} → View K → View (Node K)
redis_view view n = view n.redis

module _ {K S : Type 0} {view : View K} (env : Env) (client : Redis.Client K S)
    (libraries : Libraries K) (cached : IsCache view (Redis.new_cache client))
    (drawn : (prefix : String) (n : Node K)
      → Keeps (redis_view view) n (generate_opaque_token libraries.crypto prefix n).1) where
  -- .
  pub services-IsWorld :
      (cfg : Config) → IsWorld (redis_view view) (services env client libraries cfg).auth
  unfolding services user_repo cache
  services-IsWorld cfg = record {
    cached = record {
      get_sound = λ k v n. cached.get_sound k v n.redis;
      get_keeps = λ k n. record { at = (cached.get_keeps k n.redis).at };
      delete_keeps = λ k n. record { at = (cached.delete_keeps k n.redis).at };
      set_only = λ k v ttl n. cached.set_only k v ttl n.redis;
      set_ok = λ k v ttl n. cached.set_ok k v ttl n.redis;
    };
    by_id_keeps = λ id n. record { at = λ k v h. h };
    by_email_keeps = λ email n. record { at = λ k v h. h };
    update_keeps = λ id status now n. record { at = λ k v h. h };
    token_keeps = drawn;
    by_id = λ id n. get_by_id-id env id n.db;
  }
