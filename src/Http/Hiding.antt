-- ===== src/Http/Hiding.antt =====
-- What the answers to failed requests disclose (internal/delivery/http/helpers.go).
use chatter_stack.Base.{ℕ, String, ◌≡◌, ◌≤◌, refl, ◌⊎◌, inl, inr, arith}
use chatter_stack.Errors.{
  Error, RoomError, MessageError, auth, room, message, user_not_found, no_rows, cache_miss, pg,
  other, email_already_used, invalid_credentials, invalid_refresh_token, invalid_access_token,
  missing_username, missing_email, missing_password, message_not_found, edit_not_allowed,
  room_not_found,
}
use chatter_stack.Http.Failures.{
  map_auth_error, map_message_error, map_room_error, map_user_error, internal, prefixed,
  missing_entity, message_status, room_status,
}

-- Whether an answer has a status of the client's errors, or tells nothing of what went wrong.
abbrev pub IsAnswer : ℕ × String → Type 0
IsAnswer answer = ((400 ≤ answer.0) × (answer.0 ≤ 499)) ⊎ (answer ≡ internal)

pub auth-IsAnswer : (e : Error) → IsAnswer (map_auth_error e)
unfolding map_auth_error
auth-IsAnswer (auth email_already_used) = inl (omega arith, omega arith)
auth-IsAnswer (auth invalid_credentials) = inl (omega arith, omega arith)
auth-IsAnswer (auth invalid_refresh_token) = inl (omega arith, omega arith)
auth-IsAnswer (auth invalid_access_token) = inr refl
auth-IsAnswer (auth missing_username) = inl (omega arith, omega arith)
auth-IsAnswer (auth missing_email) = inl (omega arith, omega arith)
auth-IsAnswer (auth missing_password) = inl (omega arith, omega arith)
auth-IsAnswer _ = inr refl

message_status-bounds : (e : MessageError) → (400 ≤ message_status e) × (message_status e ≤ 499)
unfolding message_status
message_status-bounds message_not_found = (omega arith, omega arith)
message_status-bounds edit_not_allowed = (omega arith, omega arith)
message_status-bounds MessageError.delete_not_allowed = (omega arith, omega arith)
message_status-bounds _ = (omega arith, omega arith)

pub message-IsAnswer : (e : Error) → IsAnswer (map_message_error e)
unfolding map_message_error
message-IsAnswer (message e) = inl (message_status-bounds e)
message-IsAnswer _ = inr refl

room_status-bounds : (e : RoomError) → (400 ≤ room_status e) × (room_status e ≤ 499)
unfolding room_status
room_status-bounds room_not_found = (omega arith, omega arith)
room_status-bounds RoomError.delete_not_allowed = (omega arith, omega arith)
room_status-bounds _ = (omega arith, omega arith)

prefixed-IsAnswer : (prefix text : String) → IsAnswer (prefixed prefix text)
unfolding prefixed
prefixed-IsAnswer prefix text = ground arith

missing_entity-IsAnswer : (constraint : String) → IsAnswer (missing_entity constraint)
unfolding missing_entity
missing_entity-IsAnswer constraint = ground arith

pub room-IsAnswer : (e : Error) → IsAnswer (map_room_error e)
unfolding map_room_error
room-IsAnswer (room e) = inl (room_status-bounds e)
room-IsAnswer (pg code constraint text) =
    ground (arith, prefixed-IsAnswer "rooms:" text, missing_entity-IsAnswer constraint)
room-IsAnswer (auth e) = prefixed-IsAnswer _ _
room-IsAnswer (message e) = prefixed-IsAnswer _ _
room-IsAnswer (other text) = prefixed-IsAnswer _ _
room-IsAnswer user_not_found = prefixed-IsAnswer _ _
room-IsAnswer no_rows = prefixed-IsAnswer _ _
room-IsAnswer cache_miss = prefixed-IsAnswer _ _

pub user-IsAnswer : (e : Error) → IsAnswer (map_user_error e)
unfolding map_user_error
user-IsAnswer user_not_found = inl (omega arith, omega arith)
user-IsAnswer (room e) = prefixed-IsAnswer _ _
user-IsAnswer (pg code constraint text) = prefixed-IsAnswer _ _
user-IsAnswer (auth e) = prefixed-IsAnswer _ _
user-IsAnswer (message e) = prefixed-IsAnswer _ _
user-IsAnswer (other text) = prefixed-IsAnswer _ _
user-IsAnswer no_rows = prefixed-IsAnswer _ _
user-IsAnswer cache_miss = prefixed-IsAnswer _ _

-- Whatever error a service fails with, the answer has a status from 400 to 499, or status 500 and
-- the text "internal server error".
pub failures_are_hidden :
    (e : Error)
    → IsAnswer (map_auth_error e)
      × IsAnswer (map_message_error e)
      × IsAnswer (map_room_error e)
      × IsAnswer (map_user_error e)
failures_are_hidden e = (auth-IsAnswer e, message-IsAnswer e, room-IsAnswer e, user-IsAnswer e)
