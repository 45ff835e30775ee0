-- ===== src/Relay/Arrival.antt =====
-- A message on its way from the message service, over Redis and the relay, to the channels of the
-- clients in its room.
use chatter_stack.Base.{ℕ, String, ◌≡◌, refl, ap, true, none, some, [], ◌∷◌, ◌++◌, ltb, length}
use chatter_stack.Exec.{ok}
use chatter_stack.Models.{Message}
use chatter_stack.Messages
use chatter_stack.Messages.{Service, SendMessageInput, Publisher, room_channel}
use chatter_stack.Messages.Sending.{send_publishes}
use chatter_stack.Hub.{Client, Hub, Broadcast, done, send_buffer, is_excluded}
use chatter_stack.Hub.Sets.{mem}
use chatter_stack.Hub.Index.{has_name}
use chatter_stack.Hub.Loop
use chatter_stack.Hub.Loop.{handle, IsSound}
use chatter_stack.Hub.Safety.{broadcast_reaches_members}
use chatter_stack.Client.{received, to_room}
use chatter_stack.Relay.{Codec, broadcast, relay}
use chatter_stack.Relay.Twice.{Reads, IsPlainRoom, relay_of_message}

-- A connected client that has the room, and space for one more payload.
abbrev pub IsListening : (ℕ → Client) → Hub → String → ℕ → Type 0
IsListening client h room c =
    (mem c h.clients ≡ true)
    × (has_name room (client c).rooms ≡ true)
    × (ltb (length (h.channels c).queue) send_buffer ≡ true)

-- The relay's broadcast of a message.
abbrev pub event_of : Message → String → Broadcast
event_of m event = record { room_id = m.room_id; payload = event; exclude = none }

module _ {W : Type 0} (codec : Codec) (s : Service W) (laws : Reads codec s)
    (client : ℕ → Client) where
  queued_for :
      (h : Hub) (m : Message) (event : String)
      → IsSound client h
      → (h' : Hub) × (handle client h (Loop.broadcast (event_of m event)) ≡ done h')
        × ((c : ℕ)
            → IsListening client h m.room_id c
            → (h'.channels c).queue ≡ (h.channels c).queue ++ event ∷ [])
  unfolding is_excluded
  queued_for h m event sound =
      let (h', handled, channels, spawned) =
        broadcast_reaches_members client h (event_of m event) sound in
      (h', handled, λ c l. rw (channels c) (rw (l.0, l.1, l.2) refl))

  -- A message that `Send` has returned has been published, with a service that publishes and JSON
  -- that reads what it has written, and the relay makes of it a broadcast, which a sound hub
  -- handles without a panic and puts behind what waits for each connected client that has the
  -- room and has space left. The room has an id that is not empty and does not make its channel
  -- look like that of a user.
  pub sent_arrives :
      (publish : Publisher W) (payload : SendMessageInput) (m : Message) (event : String) (h : Hub)
      (w w' : W)
      → s.pub_sub ≡ some publish
      → Messages.send s payload w ≡ (ok m, w')
      → IsPlainRoom m.room_id
      → codec.encode_message (received m) ≡ ok event
      → IsSound client h
      → (bytes : String) × (w1 : W) × (publish (room_channel m.room_id) bytes w1 ≡ (ok tt, w'))
        × (relay codec (room_channel m.room_id) bytes ≡ broadcast (event_of m event))
        × ((h' : Hub) × (handle client h (Loop.broadcast (event_of m event)) ≡ done h')
            × ((c : ℕ)
                → IsListening client h m.room_id c
                → (h'.channels c).queue ≡ (h.channels c).queue ++ event ∷ []))
  unfolding to_room
  sent_arrives publish payload m event h w w' publishes sent plain encoded sound =
      let (bytes, w1, made, told) = send_publishes s publish payload m w w' publishes sent in
      (
        bytes,
        w1,
        told,
        relay_of_message codec s laws m bytes (event_of m event) plain made
            (ap (to_room m.room_id none) encoded),
        queued_for h m event sound,
      )
