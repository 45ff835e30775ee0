-- ===== src/Hub/Tests.antt =====
-- The hub's theorems at concrete hubs, and runs of internal/delivery/websocket/hub.go.
use chatter_stack.Base.{
  ℕ, zero, suc, String, ◌≡◌, refl, true, false, not, ◌&&◌, some, List, [], ◌∷◌, ◌++◌, ◌==◌,
  if◌then◌else◌,
}
use chatter_stack.Base.Dict
use chatter_stack.Hub.Sets.{mem, insert, erase}
use chatter_stack.Hub.Index.{has_name}
use chatter_stack.Hub.Delivery.{after_broadcast, overflowing}
use chatter_stack.Hub.{
  Client, Channel, Hub, Broadcast, Run, done, panicked, members, new_hub, add_client, remove_client,
  send_to_room, send_to_user, shutdown,
}
use chatter_stack.Hub.Loop.{
  Event, register, unregister, taken, broadcast, handle, serve, drain, IsSound,
}
use chatter_stack.Hub.Safety.{
  new_hub-IsSound, add_client-IsSound, serve-IsSound, broadcast_reaches_members,
  unregister_disconnects,
}
use chatter_stack.Hub.Closing.{unregister_twice}
use chatter_stack.Hub.Crashes.{full_user_client_crashes}
use chatter_stack.Hub.Shutdown.{send_to_user_after_shutdown}

-- Opens all that the hub's code calls.
hub_code : Unit {0}
unfolding serve handle drain add_client remove_client send_to_room send_to_user shutdown mem insert
    erase Dict.get Dict.put
hub_code = tt

-- Client 1 is ann's, in rooms "a" and "b"; all others are bob's, in room "a".
abbrev people : ℕ → Client
people c =
    if c == 1
    then record { user_id = "ann"; rooms = "a" ∷ "b" ∷ [] }
    else record { user_id = "bob"; rooms = "a" ∷ [] }

abbrev fresh : ℕ → Channel
fresh c = record { queue = []; closed = false }

abbrev hello : Broadcast
hello = record { room_id = "a"; payload = "hello"; exclude = some 2 }

abbrev two_join : List Event
two_join = register 1 ∷ register 2 ∷ []

abbrev both : Hub
both = add_client people (add_client people (new_hub fresh) 1) 2

both_joined : serve people (new_hub fresh) two_join ≡ done both
unfolding serve handle
both_joined = refl

both-IsSound : IsSound people both
unfolding hub_code
both-IsSound =
    add_client-IsSound people (add_client people (new_hub fresh) 1) 2
      (add_client-IsSound people (new_hub fresh) 1 (new_hub-IsSound people fresh) refl) refl

abbrev a_session : List Event
a_session = two_join ++ broadcast hello ∷ taken 1 ∷ unregister 1 ∷ []

serve-IsSound_example :
    (h' : Hub) × (serve people (new_hub fresh) a_session ≡ done h') × IsSound people h'
unfolding hub_code
serve-IsSound_example =
    serve-IsSound people (new_hub fresh) a_session (new_hub-IsSound people fresh)
      (refl, (refl, (tt, (tt, (refl, tt)))))

broadcast_reaches_members_example :
    (h' : Hub) × (handle people both (broadcast hello) ≡ done h')
    × ((c : ℕ)
        → h'.channels c
          ≡ after_broadcast hello (mem c both.clients && has_name "a" (people c).rooms) c (fresh c))
    × (h'.spawned ≡ [] ++ overflowing hello both (members "a" both.rooms))
unfolding hub_code
broadcast_reaches_members_example = broadcast_reaches_members people both hello both-IsSound

unregister_disconnects_at_work :
    (h' : Hub) × (handle people both (unregister 1) ≡ done h')
    × ((d : ℕ) → mem d h'.clients ≡ (not (1 == d) && mem d both.clients))
    × ((d : ℕ) → h'.channels d ≡ (if 1 == d then record { queue = []; closed = true } else fresh d))
unfolding hub_code
unregister_disconnects_at_work = unregister_disconnects people both 1 both-IsSound refl

-- The hub after a run; the run's result is `done` where this is used.
abbrev state : Run Hub → Hub
state (done h) = h
state panicked = new_hub fresh

abbrev ann_left : Hub
ann_left = state (handle people both (unregister 1))

abbrev later : Hub
later = state (serve people ann_left (broadcast hello ∷ taken 2 ∷ []))

unregister_twice_example : handle people later (unregister 1) ≡ panicked
unfolding hub_code
unregister_twice_example =
    unregister_twice people both ann_left later 1 (broadcast hello ∷ taken 2 ∷ []) refl refl

abbrev many : ℕ → List String
many zero = []
many (suc n) = "x" ∷ many n

-- Both clients are connected, and nothing has been taken from the buffer of either.
abbrev stuck : Hub
stuck = record both { channels = λ c. record { queue = many 256; closed = false } }

full_user_client_crashes_example :
    send_to_room (state (send_to_user stuck "ann" "m")) hello ≡ panicked
unfolding hub_code
full_user_client_crashes_example =
    full_user_client_crashes stuck (state (send_to_user stuck "ann" "m")) "ann" "m" 1 hello refl
      refl refl refl refl

send_to_user_after_shutdown_example : send_to_user (state (shutdown both)) "bob" "m" ≡ panicked
unfolding hub_code
send_to_user_after_shutdown_example =
    send_to_user_after_shutdown both (state (shutdown both)) "bob" "m" 2 refl refl refl
