-- ===== src/Http/Payloads.antt =====
-- internal/delivery/http/helpers.go: what an answer shows of a user, a message and a room. A time
-- that is 0 is Go's zero time.
use chatter_stack.Base.{ℕ, zero, suc, ℤ, String, Bool, Option, none, some, List, [], ◌∷◌}
use chatter_stack.Models.{User, Attachment, Message, Room, RoomMember}

pub record UserPayload : Type 0 where
  pub id : String
  pub username : String
  pub email : String
  pub status : String
  pub last_seen_at : Option ℕ
  pub created_at : ℕ

pub record TokenPayload : Type 0 where
  pub access_token : String
  pub refresh_token : String

pub record AttachmentPayload : Type 0 where
  pub id : String
  pub message_id : String
  pub url : String
  pub mime_type : String
  pub size_bytes : ℤ

pub record MessagePayload : Type 0 where
  pub id : String
  pub room_id : String
  pub sender_id : String
  pub content : String
  pub attachments : List AttachmentPayload
  pub status : String
  pub created_at : ℕ
  pub updated_at : ℕ

pub record RoomPayload : Type 0 where
  pub id : String
  pub name : String
  pub is_group : Bool
  pub created_by : String
  pub created_at : ℕ

pub record RoomMemberPayload : Type 0 where
  pub id : String
  pub room_id : String
  pub user_id : String
  pub role : String

-- `if !u.LastSeenAt.IsZero()`
abbrev pub last_seen : ℕ → Option ℕ
last_seen zero = none
last_seen (suc t) = some (suc t)

pub to_user_payload : User → UserPayload
to_user_payload u = record {
  id = u.id;
  username = u.username;
  email = u.email;
  status = u.status;
  last_seen_at = last_seen u.last_seen_at;
  created_at = u.created_at;
}

abbrev pub to_attachment_payload : Attachment → AttachmentPayload
to_attachment_payload att = record {
  id = att.id;
  message_id = att.message_id;
  url = att.url;
  mime_type = att.mime_type;
  size_bytes = att.size_bytes;
}

unfoldable pub to_attachment_payloads : List Attachment → List AttachmentPayload
to_attachment_payloads [] = []
to_attachment_payloads (att ∷ list) = to_attachment_payload att ∷ to_attachment_payloads list

unfoldable pub to_message_payload : Message → MessagePayload
unfolding to_attachment_payloads
to_message_payload msg = record {
  id = msg.id;
  room_id = msg.room_id;
  sender_id = msg.sender_id;
  content = msg.content;
  attachments = to_attachment_payloads msg.attachments;
  status = msg.status;
  created_at = msg.created_at;
  updated_at = msg.updated_at;
}

unfoldable pub to_message_payloads : List Message → List MessagePayload
unfolding to_message_payload
to_message_payloads [] = []
to_message_payloads (msg ∷ list) = to_message_payload msg ∷ to_message_payloads list

abbrev pub to_room_payload : Room → RoomPayload
to_room_payload room = record {
  id = room.id;
  name = room.name;
  is_group = room.is_group;
  created_by = room.created_by;
  created_at = room.created_at;
}

pub to_room_payloads : List Room → List RoomPayload
to_room_payloads [] = []
to_room_payloads (room ∷ list) = to_room_payload room ∷ to_room_payloads list

pub to_room_member_payloads : List RoomMember → List RoomMemberPayload
to_room_member_payloads [] = []
to_room_member_payloads (member ∷ members) =
    record {
      id = member.id;
      room_id = member.room_id;
      user_id = member.user_id;
      role = member.role;
    }
    ∷ to_room_member_payloads members
