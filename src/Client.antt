-- ===== src/Client.antt =====
-- internal/delivery/websocket: what a connected client may send (client.go, payloads.go), and the
-- rooms that a connection is let into (auth_helpers.go). The message sender, the JSON encoding and
-- the look-up of members are parameters. The result of a handler is the broadcast that it queues in
-- the hub, if any; the hub is there, and the log lines are left out.
pub mod Membership
pub mod Sending
pub mod Pump
pub mod Writer
pub mod Tests
use chatter_stack.Base.{
  ℕ, ℤ, String, Bool, true, false, not, ◌||◌, Option, none, some, List, [], ◌∷◌, eqb, trim_space,
  if◌then◌else◌, ◌==◌, length,
}
use chatter_stack.Exec.{Result, ok, err, Exec}
use chatter_stack.Models.{Attachment, Message, RoomMember}
use chatter_stack.Messages.{SendMessageInput}
use chatter_stack.Hub.{Broadcast}
use chatter_stack.Http.Payloads.{AttachmentPayload, to_attachment_payload, to_attachment_payloads}

pub record SendMessagePayload : Type 0 where
  pub room_id : String
  pub content : String
  pub attachments : List AttachmentPayload

pub record ReceiveMessagePayload : Type 0 where
  pub id : String
  pub room_id : String
  pub sender_id : String
  pub content : String
  pub attachments : List AttachmentPayload
  pub status : String
  pub created_at : ℕ
  pub updated_at : ℕ

pub record TypingBroadcastPayload : Type 0 where
  pub username : String
  pub room_id : String

-- `c` is the number of the client, `encode_message` and `encode_typing` the JSON of an event.
pub record Client (W : Type 0) : Type 0 where
  pub c : ℕ
  pub user_id : String
  pub username : String
  pub rooms : List String
  pub sender : Option (SendMessageInput → Exec W Message)
  pub encode_message : ReceiveMessagePayload → Result String
  pub encode_typing : String → TypingBroadcastPayload → Result String

-- The name of a client that `NewClient` is given.
abbrev pub display_name : String → String → String
display_name user_id username = if eqb (trim_space username) "" then user_id else username

-- NewClient. Its channel is that of the hub's model, and its limiter that of `ReadPump`; the set of
-- rooms is the list.
abbrev pub new_client :
    {W : Type 0}
    → ℕ
    → String
    → List String
    → Option (SendMessageInput → Exec W Message)
    → String
    → (ReceiveMessagePayload → Result String)
    → (String → TypingBroadcastPayload → Result String)
    → Client W
new_client c user_id rooms sender username encode_message encode_typing = record {
  c = c;
  user_id = user_id;
  username = display_name user_id username;
  rooms = rooms;
  sender = sender;
  encode_message = encode_message;
  encode_typing = encode_typing;
}

pub to_domain_attachments : List AttachmentPayload → List Attachment
to_domain_attachments [] = []
to_domain_attachments (att ∷ list) =
    record {
      id = att.id;
      message_id = att.message_id;
      url = att.url;
      mime_type = att.mime_type;
      size_bytes = att.size_bytes;
    }
    ∷ to_domain_attachments list

-- toPayloadAttachments, which copies the same fields as the function of helpers.go does.
abbrev pub to_payload_attachments : List Attachment → List AttachmentPayload
to_payload_attachments list = to_attachment_payloads list

-- `_, ok := c.roomSet[roomID]`
pub is_member : List String → String → Bool
is_member [] room_id = false
is_member (r ∷ rooms) room_id = eqb r room_id || is_member rooms room_id

abbrev pub received : Message → ReceiveMessagePayload
received msg = record {
  id = msg.id;
  room_id = msg.room_id;
  sender_id = msg.sender_id;
  content = msg.content;
  attachments = to_payload_attachments msg.attachments;
  status = msg.status;
  created_at = msg.created_at;
  updated_at = msg.updated_at;
}

unfoldable pub to_room : String → Option ℕ → Result String → Option Broadcast
to_room room_id exclude (ok bytes) =
    some (record { room_id = room_id; payload = bytes; exclude = exclude })
to_room room_id exclude (err e) = none

-- The room of a typing event: the one that it names, or the only room of the client.
typing_room : List String → String → Option String
typing_room (r ∷ []) room_id = some (if eqb room_id "" then r else room_id)
typing_room rooms room_id = if eqb room_id "" then none else some room_id

module _ {W : Type 0} (c : Client W) where
  relay_sent : Result Message → Option Broadcast
  unfolding to_room
  relay_sent (ok msg) = to_room msg.room_id none (c.encode_message (received msg))
  relay_sent (err e) = none

  send_through :
      Option (SendMessageInput → Exec W Message) → SendMessageInput → W → Option Broadcast × W
  unfolding relay_sent
  send_through none input w = (none, w)
  send_through (some send) input w = (relay_sent (send input w).0, (send input w).1)

  unfoldable pub handle_send_message : SendMessagePayload → W → Option Broadcast × W
  unfolding send_through is_member to_domain_attachments
  handle_send_message payload w =
      let room_id = trim_space payload.room_id in
      if eqb room_id "" || not (is_member c.rooms room_id)
      then (none, w)
      else send_through c.sender
          (record {
            room_id = room_id;
            sender_id = c.user_id;
            content = trim_space payload.content;
            attachments = to_domain_attachments payload.attachments;
          })
          w

  typing_in : String → Option String → Option Broadcast
  unfolding is_member to_room
  typing_in event none = none
  typing_in event (some room_id) =
      if is_member c.rooms room_id
      then to_room room_id (some c.c)
          (c.encode_typing event (record { username = c.username; room_id = room_id }))
      else none

  pub handle_typing_event : String → String → Option Broadcast
  unfolding typing_in typing_room
  handle_typing_event event room_id = typing_in event (typing_room c.rooms (trim_space room_id))

-- FilterAuthorizedRooms: a room is kept if its members can be listed and the user is one of them.
has_user : String → List RoomMember → Bool
has_user user_id [] = false
has_user user_id (m ∷ members) = eqb m.user_id user_id || has_user user_id members

unfoldable pub authorizes : String → Result (List RoomMember) → Bool
unfolding has_user
authorizes user_id (ok members) = has_user user_id members
authorizes user_id (err e) = false

unfoldable pub filter_authorized_rooms :
    {W : Type 0} → (String → Exec W (List RoomMember)) → String → List String → W → List String × W
unfolding authorizes
filter_authorized_rooms list_members user_id [] w = ([], w)
filter_authorized_rooms list_members user_id (room_id ∷ room_ids) w =
    let (found, w1) = list_members room_id w in
    let (rest, w2) = filter_authorized_rooms list_members user_id room_ids w1 in
    (if authorizes user_id found then room_id ∷ rest else rest, w2)
