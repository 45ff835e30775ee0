-- ===== src/Redis/Tests.antt =====
-- A Redis that keeps its entries in a dictionary and counts the subscriptions that are open.
use chatter_stack.Base.{
  ℕ, suc, true, false, not, ◌&&◌, inl, ◌-◌, String, ◌≡◌, refl, Option, none, some, [], ◌∷◌, arith,
  eq_iff,
}
use chatter_stack.Base.Dict
use chatter_stack.Exec.{Result, ok}
use chatter_stack.Auth.Cache.{View, IsCache, Keeps-refl}
use chatter_stack.Auth.Reliable.{found}
use chatter_stack.Redis.{Client, missed, get, new_cache}
use chatter_stack.Http.Failures.{contains}
use chatter_stack.Client.{to_room}
use chatter_stack.Relay.{relay}
use chatter_stack.Relay.Loop.{
  cancelled, hub_returned, incoming, hanging, returned, start_message_relay,
}
use chatter_stack.Relay.Loop.Leak.{Counts, broadcasts, relay_subscriptions}
use chatter_stack.Relay.Tests.{codec}

pub record Kv : Type 0 where
  pub entries : Dict.Dict String
  pub open_subs : ℕ

-- Whether Receive fails is up to the caller.
abbrev pub client : Result (Unit {0}) → Client Kv (Unit {0})
client receives = record {
  get = λ key k. (found (Dict.get key k.entries), k);
  set = λ key value ttl k. (ok tt, record k { entries = Dict.put key value k.entries });
  del = λ key k. (ok tt, record k { entries = Dict.remove key k.entries });
  publish = λ channel payload k. (ok tt, k);
  subscribe = λ channel k. (tt, record k { open_subs = suc k.open_subs });
  psubscribe = λ patterns k. (tt, record k { open_subs = suc k.open_subs });
  receive = λ sub k. (receives, k);
  close = λ sub k. (ok tt, record k { open_subs = k.open_subs - 1 });
}

abbrev pub view : View Kv
view k key = Dict.get key k.entries

found-ok : (o : Option String) (v : String) → missed (found o) ≡ ok v → o ≡ some v
unfolding missed
found-ok none v h = cc
found-ok (some u) v h = ground arith

pub new_cache-IsCache : IsCache view (new_cache (client (ok tt)))
unfolding get
new_cache-IsCache = record {
  get_sound = λ k v w h. found-ok (Dict.get k w.entries) v h;
  get_keeps = λ k w. Keeps-refl w;
  delete_keeps = λ k w. record { at = λ j v h. ground (arith, Dict.get-remove k j w.entries) };
  set_only = λ k v ttl w j u h. ground (arith, Dict.get-put k j v w.entries, eq_iff k j);
  set_ok = λ k v ttl w u s h. ground (arith, Dict.get-put k k v w.entries, eq_iff k k);
}

count : Kv → ℕ
count k = k.open_subs

client-Counts : (receives : Result (Unit {0})) → Counts count (client receives)
unfolding count
client-Counts receives = record {
  psubscribe = λ patterns k. refl;
  receive = λ sub k. refl;
  close = λ sub k n h. omega (arith, h);
}

abbrev quiet : Kv
quiet = record { entries = []; open_subs = 0 }

new_message_is_broadcast : (broadcasts (relay codec "rooms:r1:messages" "{}") && not false) ≡ true
unfolding relay contains to_room
new_message_is_broadcast = refl

relay_in_time : (broadcasts (relay codec "rooms:r1:messages" "{}") && not true) ≡ false
unfolding relay contains to_room
relay_in_time = refl

-- Receive is confirmed, but the hub returns before the relay hands on a message.
relay_subscriptions_example :
    count
      (start_message_relay
        (client (ok tt))
        codec
        (hub_returned ∷ incoming "rooms:r1:messages" "{}" ∷ cancelled ∷ [])
        quiet).1
    ≡ 1
unfolding count
relay_subscriptions_example =
    relay_subscriptions (client (ok tt)) (client-Counts (ok tt)) codec
      (hub_returned ∷ incoming "rooms:r1:messages" "{}" ∷ cancelled ∷ []) hanging quiet
      (inl new_message_is_broadcast)

told_to_end :
    count
      (start_message_relay
        (client (ok tt))
        codec
        (incoming "rooms:r1:messages" "{}" ∷ hub_returned ∷ cancelled ∷ [])
        quiet).1
    ≡ 0
unfolding count
told_to_end =
    relay_subscriptions (client (ok tt)) (client-Counts (ok tt)) codec
      (incoming "rooms:r1:messages" "{}" ∷ hub_returned ∷ cancelled ∷ []) returned quiet
      (relay_in_time, tt)
