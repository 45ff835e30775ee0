-- ===== src/Relay/Loop/Leak.antt =====
-- What the relay of internal/delivery/websocket/relay.go leaves open, and PatternSubscribe of
-- internal/repository/redis/redis_pubsub.go with it.
use chatter_stack.Base.{
  ℕ, suc, String, ◌≡◌, refl, ◌∙◌, ◌⊎◌, inl, inr, Bool, true, false, not, ◌&&◌, Bool-cases, List, [],
  ◌∷◌, if◌then◌else◌,
}
use chatter_stack.Exec.{Result, ok, err}
use chatter_stack.Redis.{Client, received, pattern_subscribe}
use chatter_stack.Relay.{Codec, Action, nothing, to_user, broadcast, relay}
use chatter_stack.Relay.Loop.{
  Event, cancelled, channel_closed, hub_returned, incoming, Place, waiting, hanging, returned,
  patterns, after_action, loop, close_if, relaying, start_message_relay,
}

-- `count` is the number of subscriptions that are open.
pub record Counts {K S : Type 0} (count : K → ℕ) (client : Client K S) : Type 0 where
  pub psubscribe :
      (patterns : List String) (k : K) → count (client.psubscribe patterns k).1 ≡ suc (count k)
  pub receive : (sub : S) (k : K) → count (client.receive sub k).1 ≡ count k
  pub close : (sub : S) (k : K) (n : ℕ) → count k ≡ suc n → count (client.close sub k).1 ≡ n

-- Whether a message makes the relay broadcast something.
abbrev pub broadcasts : Action → Bool
broadcasts (broadcast b) = true
broadcasts action = false

-- Before one of the events ends the loop, no message has to be broadcast to a hub that has returned.
abbrev pub Ends : Codec → Bool → List Event → Type 0
Ends codec running [] = ⊥
Ends codec running (cancelled ∷ events) = Unit
Ends codec running (channel_closed ∷ events) = Unit
Ends codec running (hub_returned ∷ events) = Ends codec false events
Ends codec running (incoming channel payload ∷ events) =
    ((broadcasts (relay codec channel payload) && not running) ≡ false) × Ends codec running events

-- One of the messages has to be broadcast to a hub that has returned, and no event before it ends the
-- loop.
abbrev pub Hangs : Codec → Bool → List Event → Type 0
Hangs codec running [] = ⊥
Hangs codec running (cancelled ∷ events) = ⊥
Hangs codec running (channel_closed ∷ events) = ⊥
Hangs codec running (hub_returned ∷ events) = Hangs codec false events
Hangs codec running (incoming channel payload ∷ events) =
    ((broadcasts (relay codec channel payload) && not running) ≡ true) ⊎ Hangs codec running events

after_action-place :
    (running : Bool) (action : Action) (rest : List Action × Place)
    → (after_action running action rest).1
      ≡ (if broadcasts action && not running then hanging else rest.1)
unfolding after_action
after_action-place true nothing rest = refl
after_action-place true (to_user u p) rest = refl
after_action-place true (broadcast b) rest = refl
after_action-place false nothing rest = refl
after_action-place false (to_user u p) rest = refl
after_action-place false (broadcast b) rest = refl

loop-Ends :
    (codec : Codec) (running : Bool) (events : List Event)
    → Ends codec running events
    → (loop codec running events).1 ≡ returned
unfolding loop
loop-Ends codec running [] h = elim h [ ]
loop-Ends codec running (cancelled ∷ events) h = refl
loop-Ends codec running (channel_closed ∷ events) h = refl
loop-Ends codec running (hub_returned ∷ events) h = loop-Ends codec false events h
loop-Ends codec running (incoming channel payload ∷ events) (quiet, h) =
    after_action-place running (relay codec channel payload) (loop codec running events)
    ∙ rw quiet (loop-Ends codec running events h)

loop-Hangs :
    (codec : Codec) (running : Bool) (events : List Event)
    → Hangs codec running events
    → (loop codec running events).1 ≡ hanging
unfolding loop
loop-Hangs codec running [] h = elim h [ ]
loop-Hangs codec running (cancelled ∷ events) h = elim h [ ]
loop-Hangs codec running (channel_closed ∷ events) h = elim h [ ]
loop-Hangs codec running (hub_returned ∷ events) h = loop-Hangs codec false events h
loop-Hangs codec running (incoming channel payload ∷ events) (inl stuck) =
    after_action-place running (relay codec channel payload) (loop codec running events)
    ∙ rw stuck refl
loop-Hangs codec running (incoming channel payload ∷ events) (inr h) =
    after_action-place running (relay codec channel payload) (loop codec running events)
    ∙ elim (Bool-cases (broadcasts (relay codec channel payload) && not running)) [
      | inl e ↦ rw e refl
      | inr e ↦ rw e (loop-Hangs codec running events h)
    ]

-- Of `n` open subscriptions: those that are open behind a Receive that ended in this way, and a loop
-- at this place.
abbrev pub left_open : Result (Unit {0}) → Place → ℕ → ℕ
left_open (ok u) returned n = n
left_open _ place n = suc n

-- How the goroutine ends, or does not.
abbrev pub IsAt : Codec → List Event → Place → Type 0
IsAt codec events returned = Ends codec true events
IsAt codec events hanging = Hangs codec true events
IsAt codec events waiting = ⊥

loop-IsAt :
    (codec : Codec) (events : List Event) (place : Place)
    → IsAt codec events place
    → (loop codec true events).1 ≡ place
loop-IsAt codec events returned h = loop-Ends codec true events h
loop-IsAt codec events hanging h = loop-Hangs codec true events h
loop-IsAt codec events waiting h = elim h [ ]

module _ {K S : Type 0} {count : K → ℕ} (client : Client K S) (counts : Counts count client) where
  close_if-count :
      (place : Place) (sub : S) (n : ℕ) (k : K)
      → count k ≡ suc n
      → count (close_if client place sub k) ≡ left_open (ok tt) place n
  unfolding close_if
  close_if-count returned sub n k opened = counts.close sub k n opened
  close_if-count hanging sub n k opened = opened
  close_if-count waiting sub n k opened = opened

  relaying-count :
      (codec : Codec) (events : List Event) (place : Place) (sub : S) (r : Result (Unit {0}))
      (n : ℕ) (k : K)
      → IsAt codec events place
      → count k ≡ suc n
      → count (relaying client (received sub r) codec events k).1 ≡ left_open r place n
  unfolding relaying received
  relaying-count codec events place sub (ok u) n k at opened =
      rw (loop-IsAt codec events place at) (close_if-count place sub n k opened)
  relaying-count codec events place sub (err e) n k at opened = opened

  -- With a client of Redis that opens one subscription at a time and closes the one it is told
  -- to, and calls of the hub that do not panic: if Receive has confirmed its subscription, a
  -- relay that is told to end, or whose channel is closed, leaves as many subscriptions open as
  -- there were before, unless it has to broadcast a message after `Run` of the hub has returned:
  -- then it hangs and one more stays open. One more stays open as well if Receive has failed.
  pub relay_subscriptions :
      (codec : Codec) (events : List Event) (place : Place) (k : K)
      → IsAt codec events place
      → count (start_message_relay client codec events k).1
        ≡ left_open
            (client.receive (client.psubscribe patterns k).0 (client.psubscribe patterns k).1).0
            place
            (count k)
  unfolding start_message_relay pattern_subscribe
  relay_subscriptions codec events place k at =
      let (sub, k1) = client.psubscribe patterns k in
      relaying-count codec events place sub (client.receive sub k1).0 (count k) _ at
        (counts.receive sub k1 ∙ counts.psubscribe patterns k)
