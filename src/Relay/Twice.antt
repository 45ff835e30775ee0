-- ===== src/Relay/Twice.antt =====
-- A message that a client sends, on its way through the message service, Redis and the relay.
use chatter_stack.Base.{String, false, ◌&&◌, ◌≡◌, refl, sym, ap, ◌∙◌, none, some, eqb}
use chatter_stack.Exec.{ok}
use chatter_stack.Models.{Message}
use chatter_stack.Messages
use chatter_stack.Messages.{Service, Publisher, changed, room_channel}
use chatter_stack.Messages.Sending.{send_publishes}
use chatter_stack.Hub.{Broadcast}
use chatter_stack.Http.Failures.{contains}
use chatter_stack.Client.{Client, SendMessagePayload, received, to_room, handle_send_message}
use chatter_stack.Client.Sending.{input_of, to_room_room, broadcast_is_sent}
use chatter_stack.Relay.{Codec, broadcast, queued, new_message, room_event, relay}

-- What JSON has to give: the marshaled message is decoded as that message, and has no field "type".
pub record Reads {W : Type 0} (codec : Codec) (s : Service W) : Type 0 where
  pub envelope :
      (m : Message) (bytes : String)
      → s.marshal (changed m) ≡ ok bytes
      → codec.envelope bytes ≡ some ""
  pub message :
      (m : Message) (bytes : String)
      → s.marshal (changed m) ≡ ok bytes
      → codec.message bytes ≡ some m

-- The name of a room's channel is not like that of a user's.
abbrev pub IsPlainRoom : String → Type 0
IsPlainRoom r =
    (eqb r "" ≡ false)
    × ((contains "users:" (room_channel r) && contains ":events" (room_channel r)) ≡ false)

pub relay_of_message :
    {W : Type 0} (codec : Codec) (s : Service W)
    → Reads codec s
    → (m : Message) (bytes : String) (b : Broadcast) → IsPlainRoom m.room_id
    → s.marshal (changed m) ≡ ok bytes
    → to_room m.room_id none (codec.encode_message (received m)) ≡ some b
    → relay codec (room_channel m.room_id) bytes ≡ broadcast b
unfolding relay room_event new_message queued
relay_of_message codec s laws m bytes b (named, plain) made event =
    rw (plain, laws.envelope m bytes made, laws.message m bytes made, named, event) refl

-- The relay reads the service's messages, and encodes events as the client does.
pub record Decodes {W : Type 0} (codec : Codec) (s : Service W) (c : Client W) : Type 0 where
  pub reads : Reads codec s
  pub encode : codec.encode_message ≡ c.encode_message

module _ {W : Type 0} (codec : Codec) (s : Service W) (c : Client W)
    (laws : Decodes codec s c) where
  -- With a message service that publishes, and JSON that reads what it has written, a message
  -- that a client sends is broadcast twice: the handler queues a broadcast to the room, and the
  -- service has published the message, of which the relay makes the same broadcast once more. The
  -- room has an id that is not empty and does not make its channel look like that of a user.
  pub sent_twice :
      (publish : Publisher W) (payload : SendMessagePayload) (b : Broadcast) (w w' : W)
      → c.sender ≡ some (Messages.send s)
      → s.pub_sub ≡ some publish
      → handle_send_message c payload w ≡ (some b, w')
      → eqb b.room_id "" ≡ false
      → (contains "users:" (room_channel b.room_id) && contains ":events" (room_channel b.room_id))
        ≡ false
      → (bytes : String) × (w1 : W) × (publish (room_channel b.room_id) bytes w1 ≡ (ok tt, w'))
        × (relay codec (room_channel b.room_id) bytes ≡ broadcast b)
  sent_twice publish payload b w w' sends publishes handled named plain =
      let (m, sent, event) = broadcast_is_sent c (Messages.send s) payload b w w' sends handled in
      let (bytes, w1, made, told) =
        send_publishes s publish (input_of c payload) m w w' publishes sent in
      let same = to_room_room m.room_id (c.encode_message (received m)) b event in
      let test = λ (r : String).
        (contains "users:" (room_channel r) && contains ":events" (room_channel r)) in
      (
        bytes,
        w1,
        ap (λ r. publish (room_channel r) bytes w1) (sym same) ∙ told,
        ap (λ r. relay codec (room_channel r) bytes) (sym same)
            ∙ relay_of_message codec s laws.reads m bytes b
                (ap (λ r. eqb r "") same ∙ named, ap test same ∙ plain) made
                (ap (λ f. to_room m.room_id none (f (received m))) laws.encode ∙ event),
      )
