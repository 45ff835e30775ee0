-- ===== src/Hub/Senders.antt =====
-- The goroutines around the loop `Run` of internal/delivery/websocket/hub.go. Its three channels have no
-- buffer, so a goroutine that calls `Register`, `Unregister` or `BroadcastToRoom` waits until the loop
-- receives what it sends.
pub mod Told
pub mod Placed
pub mod Safe
pub mod Blocked
pub mod Tests
use chatter_stack.Base.{
  ℕ, ◌≡◌, String, Bool, true, false, Option, none, some, List, [], ◌∷◌, ◌++◌, ◌==◌, if◌then◌else◌,
}
use chatter_stack.Hub.{
  Client, Channel, Hub, Broadcast, Run, done, new_hub, remove_client, send_to_user, shutdown,
}
use chatter_stack.Hub.Loop.{Event, register, unregister, broadcast, handle, drain}

-- Where the handler of /ws is with a client: about to register it; in `ReadPump`, which is going to
-- queue these broadcasts and then to unregister the client; or past the deferred call.
pub data Stage : Type 0 where
  entering reading : List Broadcast → Stage
  finished : Stage

-- What the handler of a client sends next.
pub sends : ℕ → Stage → Option Event
sends c (entering list) = some (register c)
sends c (reading []) = some (unregister c)
sends c (reading (b ∷ list)) = some (broadcast b)
sends c finished = none

pub next : Stage → Stage
next (entering list) = reading list
next (reading []) = finished
next (reading (b ∷ list)) = reading list
next finished = finished

-- `running` is whether `Run` has not returned.
pub record State : Type 0 where
  pub hub : Hub
  pub running : Bool
  pub stages : ℕ → Stage

pub set_stage : (ℕ → Stage) → ℕ → Stage → ℕ → Stage
set_stage stages c stage d = if d == c then stage else stages d

module _ (client : ℕ → Client) where
  -- The loop receives what a handler sends, a broadcast of the relay, or the unregistration that
  -- `sendToRoom` has started for a slow client; a `WritePump` takes a payload; the relay calls
  -- `SendToUser`; or the context is done.
  pub data Step : State → State → Type 0 where
    received :
        {s : State} {h : Hub} {e : Event} (c : ℕ)
        → s.running ≡ true
        → sends c (s.stages c) ≡ some e
        → handle client s.hub e ≡ done h
        → Step s
            (record { hub = h; running = true; stages = set_stage s.stages c (next (s.stages c)) })
    relayed :
        {s : State} {h : Hub} (b : Broadcast)
        → s.running ≡ true
        → handle client s.hub (broadcast b) ≡ done h
        → Step s (record { hub = h; running = true; stages = s.stages })
    slow :
        {s : State} {h : Hub} (c : ℕ) (before after : List ℕ)
        → s.running ≡ true
        → s.hub.spawned ≡ before ++ c ∷ after
        → remove_client client (record s.hub { spawned = before ++ after }) c ≡ done h
        → Step s (record { hub = h; running = true; stages = s.stages })
    took : {s : State} (c : ℕ) → Step s (record s { hub = drain s.hub c })
    told :
        {s : State} {h : Hub} (user bytes : String)
        → send_to_user s.hub user bytes ≡ done h
        → Step s (record s { hub = h })
    cancelled :
        {s : State} {h : Hub}
        → s.running ≡ true
        → shutdown s.hub ≡ done h
        → Step s (record { hub = h; running = false; stages = s.stages })

  pub data Runs : State → State → Type 0 where
    here : {s : State} → Runs s s
    later : {s t u : State} → Step s t → Runs t u → Runs s u

-- Nobody is connected yet, and each client is going to queue some broadcasts.
pub begin : (ℕ → Channel) → (ℕ → List Broadcast) → State
begin channels lists = record {
  hub = new_hub channels;
  running = true;
  stages = λ c. entering (lists c);
}
