-- ===== src/Models.antt =====
-- internal/domain/models: the records that all parts share. A `time.Time` is the number of
-- nanoseconds since a fixed origin, 0 for the zero time.
use chatter_stack.Base.{ℕ, ℤ, String, Bool, Option, List}

-- models.Room
pub record Room : Type 0 where
  pub id : String
  pub name : String
  pub is_group : Bool
  pub created_by : String
  pub created_at : ℕ

-- models.RoomMember; a role is a text
pub record RoomMember : Type 0 where
  pub id : String
  pub room_id : String
  pub user_id : String
  pub role : String

abbrev pub role_admin : String
role_admin = "admin"

abbrev pub role_member : String
role_member = "member"

-- models.Attachment
pub record Attachment : Type 0 where
  pub id : String
  pub message_id : String
  pub url : String
  pub mime_type : String
  pub size_bytes : ℤ

-- models.Message; a status is a text
pub record Message : Type 0 where
  pub id : String
  pub room_id : String
  pub sender_id : String
  pub content : String
  pub attachments : List Attachment
  pub status : String
  pub created_at : ℕ
  pub updated_at : ℕ

abbrev pub status_sent : String
status_sent = "SENT"

abbrev pub status_delivered : String
status_delivered = "DELIVERED"

abbrev pub status_read : String
status_read = "READ"

-- models.MessageReceipt
pub record MessageReceipt : Type 0 where
  pub id : String
  pub message_id : String
  pub user_id : String
  pub status : String
  pub seen_at : Option ℕ

-- models.User
pub record User : Type 0 where
  pub id : String
  pub username : String
  pub email : String
  pub password_hash : String
  pub status : String
  pub last_seen_at : ℕ
  pub created_at : ℕ

abbrev pub status_online : String
status_online = "online"

abbrev pub status_offline : String
status_offline = "offline"
