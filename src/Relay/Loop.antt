-- ===== src/Relay/Loop.antt =====
-- The goroutine of StartMessageRelay in internal/delivery/websocket/relay.go: it subscribes, handles
-- messages until it is told to end, and closes the subscription. A broadcast is a send on a channel
-- without a buffer, so the goroutine hangs at it once the `Run` of the hub has returned. A panic of the
-- hub ends the program and is left out.
pub mod Leak
use chatter_stack.Base.{String, Bool, true, false, List, [], ◌∷◌}
use chatter_stack.Exec.{Result, ok, err}
use chatter_stack.Redis.{Client, pattern_subscribe}
use chatter_stack.Relay.{Codec, Action, broadcast, relay}

-- What `select` receives: the context is done, the channel of the subscription is closed, or there is
-- a message on a channel of Redis. Or, between two turns, the hub's `Run` has returned.
pub data Event : Type 0 where
  cancelled channel_closed hub_returned : Event
  incoming : String → String → Event

abbrev pub patterns : List String
patterns = "rooms:*:messages" ∷ "users:*:events" ∷ []

-- Where the goroutine is behind the events: in the loop, at a broadcast that nobody receives, or past
-- the loop.
pub data Place : Type 0 where
  waiting hanging returned : Place

abbrev behind : Action → List Action × Place → List Action × Place
behind action (actions, place) = (action ∷ actions, place)

-- A turn with an action; `running` is whether the hub's `Run` has not returned.
after_action : Bool → Action → List Action × Place → List Action × Place
after_action true action rest = behind action rest
after_action false (broadcast b) rest = ([], hanging)
after_action false action rest = behind action rest

-- What the hub is given, and where the loop is.
unfoldable pub loop : Codec → Bool → List Event → List Action × Place
unfolding after_action
loop codec running [] = ([], waiting)
loop codec running (cancelled ∷ events) = ([], returned)
loop codec running (channel_closed ∷ events) = ([], returned)
loop codec running (hub_returned ∷ events) = loop codec false events
loop codec running (incoming channel payload ∷ events) =
    let rest = loop codec running events in after_action running (relay codec channel payload) rest

module _ {K S : Type 0} (client : Client K S) where
  -- The deferred closeFn, once the loop has returned.
  close_if : Place → S → K → K
  close_if returned sub k = (client.close sub k).1
  close_if hanging sub k = k
  close_if waiting sub k = k

  relaying : Result S → Codec → List Event → K → List Action × K
  unfolding close_if
  relaying (err e) codec events k = ([], k)
  relaying (ok sub) codec events k =
      let (actions, place) = loop codec true events in (actions, close_if place sub k)

  unfoldable pub start_message_relay : Codec → List Event → K → List Action × K
  unfolding relaying
  start_message_relay codec events k =
      let (subscribed, k1) = pattern_subscribe client patterns k in
      relaying subscribed codec events k1
