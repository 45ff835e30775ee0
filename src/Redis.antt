-- ===== src/Redis.antt =====
-- internal/repository/redis: the cache and the publish-subscribe adapter over the client of go-redis,
-- which is a parameter.
pub mod Tests
use chatter_stack.Base.{String, ℤ, List, [], ◌∷◌, if◌then◌else◌}
use chatter_stack.Errors.{Error, cache_miss, is_cache_miss}
use chatter_stack.Exec.{Result, ok, err, Exec}
use chatter_stack.Auth.{TokenCache}

-- GET, SET and DEL; PUBLISH; SUBSCRIBE and PSUBSCRIBE, which make a subscription, and its Receive and
-- Close.
pub record Client (K S : Type 0) : Type 0 where
  pub get : String → Exec K String
  pub set : String → String → ℤ → Exec K (Unit {0})
  pub del : String → Exec K (Unit {0})
  pub publish : String → String → Exec K (Unit {0})
  pub subscribe : String → K → S × K
  pub psubscribe : List String → K → S × K
  pub receive : S → Exec K (Unit {0})
  pub close : S → Exec K (Unit {0})

-- `if err == redis.Nil { return "", ErrCacheMiss }`
unfoldable pub missed : Result String → Result String
missed (ok val) = ok val
missed (err e) = if is_cache_miss e then err cache_miss else err e

-- `return sub.Channel(), sub.Close, nil`, or the error of Receive.
unfoldable pub received : {S : Type 0} → S → Result (Unit {0}) → Result S
received sub (ok u) = ok sub
received sub (err e) = err e

module _ {K S : Type 0} (client : Client K S) where
  unfoldable pub get : String → Exec K String
  unfolding missed
  get key k = (missed (client.get key k).0, (client.get key k).1)

  abbrev pub new_cache : TokenCache K
  new_cache = record { get = get; set = client.set; delete = client.del }

  pub subscribe : String → Exec K S
  unfolding received
  subscribe channel k =
      let (sub, k1) = client.subscribe channel k in
      (received sub (client.receive sub k1).0, (client.receive sub k1).1)

  unfoldable pub pattern_subscribe : List String → Exec K S
  unfolding received
  pattern_subscribe patterns k =
      let (sub, k1) = client.psubscribe patterns k in
      (received sub (client.receive sub k1).0, (client.receive sub k1).1)
