-- ===== src/Errors.antt =====
-- The error values of the program: the sentinels of internal/domain/*/service_impl.go, what the
-- drivers return, and errors made on the spot by `errors.New` and `fmt.Errorf`.
use chatter_stack.Base.{String, Bool, true, false}

-- internal/domain/auth/service_impl.go
pub data AuthError : Type 0 where
  email_already_used invalid_credentials invalid_refresh_token invalid_access_token : AuthError
  missing_username missing_email missing_password : AuthError

-- internal/domain/rooms/service_impl.go
pub data RoomError : Type 0 where
  invalid_room_name invalid_creator_id invalid_member_user invalid_user_id : RoomError
  direct_message_self room_not_found delete_not_allowed : RoomError

-- internal/domain/messages/service_impl.go
pub data MessageError : Type 0 where
  invalid_room_id invalid_sender_id invalid_content invalid_message_id : MessageError
  invalid_user_id invalid_search message_not_found : MessageError
  edit_not_allowed delete_not_allowed : MessageError

-- An `error` that is not nil. `no_rows` is pgx.ErrNoRows, `cache_miss` is redis.Nil, `pg` is a
-- *pgconn.PgError with its code, constraint and text, `user_not_found` is users.ErrUserNotFound,
-- and `other` any error that is identified by its text alone.
pub data Error : Type 0 where
  auth : AuthError → Error
  room : RoomError → Error
  message : MessageError → Error
  user_not_found no_rows cache_miss : Error
  pg : String → String → String → Error
  other : String → Error

abbrev pub auth_text : AuthError → String
auth_text email_already_used = "auth: email already in use"
auth_text invalid_credentials = "auth: invalid email or password"
auth_text invalid_refresh_token = "auth: invalid refresh token"
auth_text invalid_access_token = "auth: invalid access token"
auth_text missing_username = "auth: username is required"
auth_text missing_email = "auth: email is required"
auth_text missing_password = "auth: password is required"

abbrev pub room_text : RoomError → String
room_text invalid_room_name = "rooms: name is required"
room_text invalid_creator_id = "rooms: creator id is required"
room_text invalid_member_user = "rooms: member user id is required"
room_text RoomError.invalid_user_id = "rooms: user id is required"
room_text direct_message_self = "rooms: direct message requires two distinct users"
room_text room_not_found = "rooms: room not found"
room_text RoomError.delete_not_allowed = "rooms: only the creator can delete this room"

abbrev pub message_text : MessageError → String
message_text invalid_room_id = "messages: room id is required"
message_text invalid_sender_id = "messages: sender id is required"
message_text invalid_content = "messages: content or attachments are required"
message_text invalid_message_id = "messages: message id is required"
message_text MessageError.invalid_user_id = "messages: user id is required"
message_text invalid_search = "messages: search query is required"
message_text message_not_found = "messages: message not found"
message_text edit_not_allowed = "messages: message edit not allowed"
message_text MessageError.delete_not_allowed = "messages: message delete not allowed"

-- err.Error()
abbrev pub error_text : Error → String
error_text (auth e) = auth_text e
error_text (room e) = room_text e
error_text (message e) = message_text e
error_text user_not_found = "users: not found"
error_text no_rows = "no rows in result set"
error_text cache_miss = "redis: nil"
error_text (pg code constraint text) = text
error_text (other text) = text

-- errors.Is(err, pgx.ErrNoRows)
abbrev pub is_no_rows : Error → Bool
is_no_rows no_rows = true
is_no_rows _ = false

-- errors.Is(err, redisadapter.ErrCacheMiss)
abbrev pub is_cache_miss : Error → Bool
is_cache_miss cache_miss = true
is_cache_miss _ = false
