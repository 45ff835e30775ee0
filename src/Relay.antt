-- ===== src/Relay.antt =====
-- internal/delivery/websocket/relay.go: what the relay does with a message of Redis. The decoding and
-- encoding of JSON is a parameter; the log lines are left out.
pub mod Channels
pub mod Twice
pub mod Arrival
pub mod Loop
pub mod Tests
use chatter_stack.Base.{
  ℕ, String, split_on, Bool, true, false, ◌&&◌, Option, none, some, List, [], ◌∷◌, eqb, trim_space,
  if◌then◌else◌,
}
use chatter_stack.Exec.{Result, ok, err}
use chatter_stack.Models.{Message}
use chatter_stack.Hub.{Broadcast}
use chatter_stack.Http.Failures.{contains}
use chatter_stack.Client.{ReceiveMessagePayload, received, to_room}

-- `envelope` reads the field "type", empty if it is not there; `deleted` reads the id and the room of
-- a deleted message, and `message` a message. Each is none for a text that it cannot decode.
pub record Codec : Type 0 where
  pub envelope : String → Option String
  pub deleted : String → Option (String × String)
  pub message : String → Option Message
  pub encode_deleted : String → String → Result String
  pub encode_message : ReceiveMessagePayload → Result String

-- The message is dropped, is sent to the clients of a user, or to those of a room.
pub data Action : Type 0 where
  nothing : Action
  to_user : String → String → Action
  broadcast : Broadcast → Action

user_event : List String → String → Action
user_event (kind ∷ user_id ∷ event ∷ rest) payload = to_user user_id payload
user_event _ payload = nothing

queued : Option Broadcast → Action
queued none = nothing
queued (some b) = broadcast b

module _ (codec : Codec) where
  deleted_message : Option (String × String) → Action
  unfolding queued
  deleted_message none = nothing
  deleted_message (some (id, room)) =
      let room_id = trim_space room in
      if eqb room_id ""
      then nothing
      else queued (to_room room_id none (codec.encode_deleted id room_id))

  new_message : Option Message → Action
  unfolding queued
  new_message none = nothing
  new_message (some m) =
      if eqb m.room_id ""
      then nothing
      else queued (to_room m.room_id none (codec.encode_message (received m)))

  room_event : Option String → String → Action
  unfolding deleted_message new_message
  room_event none payload = new_message (codec.message payload)
  room_event (some kind) payload =
      if eqb kind ""
      then new_message (codec.message payload)
      else if eqb kind "message.deleted"
      then deleted_message (codec.deleted payload)
      else nothing

  -- One turn of the loop of StartMessageRelay.
  unfoldable pub relay : String → String → Action
  unfolding room_event user_event split_on
  relay channel payload =
      if contains "users:" channel && contains ":events" channel
      then user_event (split_on 58 channel) payload
      else room_event (codec.envelope payload) payload
