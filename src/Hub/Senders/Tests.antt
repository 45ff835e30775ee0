-- ===== src/Hub/Senders/Tests.antt =====
-- A client that registers and queues a broadcast, and one that waits when `Run` has returned.
use chatter_stack.Base.{ℕ, ◌≡◌, refl, true, false, none, some, List, [], ◌∷◌}
use chatter_stack.Base.Dict
use chatter_stack.Hub.Sets.{mem, insert}
use chatter_stack.Hub.{
  Client, Channel, Hub, Broadcast, Run, done, panicked, update, new_hub, add_client, send_to_room,
  shutdown,
}
use chatter_stack.Hub.Loop.{Event, broadcast, handle, drain, IsSound}
use chatter_stack.Hub.Senders.{
  reading, sends, next, State, set_stage, received, took, cancelled, Runs, here, later, begin,
}
use chatter_stack.Hub.Senders.Safe.{is_reading, Runs-IsSound}
use chatter_stack.Hub.Senders.Blocked.{handlers_wait_for_ever}

abbrev everyone : ℕ → Client
everyone c = record { user_id = "ann"; rooms = "a" ∷ [] }

abbrev fresh : ℕ → Channel
fresh c = record { queue = []; closed = false }

abbrev hello : Broadcast
hello = record { room_id = "a"; payload = "hello"; exclude = none }

abbrev lists : ℕ → List Broadcast
lists c = hello ∷ []

abbrev hub_of : Run Hub → Hub
hub_of (done h) = h
hub_of panicked = new_hub fresh

abbrev registered : State
registered = record {
  hub = add_client everyone (new_hub fresh) 1;
  running = true;
  stages = set_stage (begin fresh lists).stages 1 (reading (lists 1));
}

abbrev queued : State
queued = record {
  hub = hub_of (handle everyone registered.hub (broadcast hello));
  running = true;
  stages = set_stage registered.stages 1 (reading []);
}

abbrev stopped : State
stopped = record { hub = hub_of (shutdown queued.hub); running = false; stages = queued.stages }

to_queued : Runs everyone (begin fresh lists) queued
unfolding handle add_client send_to_room begin sends next set_stage insert mem Dict.get Dict.put
    update
to_queued = later (received 1 refl refl refl) (later (received 1 refl refl refl) here)

Runs-IsSound_example :
    IsSound everyone queued.hub
    × ((c : ℕ) → mem c queued.hub.clients ≡ is_reading (queued.stages c))
    × ((c : ℕ) (e : Event)
        → sends c (queued.stages c) ≡ some e
        → (h : Hub) × (handle everyone queued.hub e ≡ done h))
unfolding to_queued
Runs-IsSound_example = Runs-IsSound everyone fresh lists (λ c. refl) to_queued (tt, (tt, tt)) refl

abbrev taken_after : State
taken_after = record { hub = drain stopped.hub 1; running = false; stages = stopped.stages }

-- The handler of client 1 is about to unregister it.
handlers_wait_for_ever_at_work : taken_after.stages ≡ stopped.stages
handlers_wait_for_ever_at_work =
    handlers_wait_for_ever everyone {s = stopped} {t = taken_after} (later (took 1) here) refl

stops : Runs everyone queued stopped
unfolding shutdown handle add_client send_to_room insert mem Dict.get Dict.put update
stops = later (cancelled refl refl) here
