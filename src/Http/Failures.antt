-- ===== src/Http/Failures.antt =====
-- internal/delivery/http/helpers.go: the status and the text of the answer to a failed request.
use chatter_stack.Base.{ℕ, String, Bool, true, false, ◌||◌, eqb, if◌then◌else◌}
use chatter_stack.Errors.{
  Error, RoomError, MessageError, auth, room, message, user_not_found, pg, error_text,
  message_not_found, edit_not_allowed, room_not_found, email_already_used, invalid_credentials,
  invalid_refresh_token, missing_username, missing_email, missing_password,
}
use Prim.Native.String.{[], ◌∷◌}
use Prim.Native.Char.{code}
use chatter_stack.Base.{◌==◌, ◌&&◌}

-- strings.HasPrefix(text, prefix)
unfoldable pub has_prefix : String → String → Bool
has_prefix [] text = true
has_prefix (c ∷ prefix) [] = false
has_prefix (c ∷ prefix) (d ∷ text) = (code c == code d) && has_prefix prefix text

-- strings.Contains(text, sub)
unfoldable pub contains : String → String → Bool
unfolding has_prefix
contains sub [] = eqb sub ""
contains sub (c ∷ text) = has_prefix sub (c ∷ text) || contains sub text

abbrev pub internal : ℕ × String
internal = (500, "internal server error")

-- mapAuthError
unfoldable pub map_auth_error : Error → ℕ × String
map_auth_error (auth missing_username) = (400, error_text (auth missing_username))
map_auth_error (auth missing_email) = (400, error_text (auth missing_email))
map_auth_error (auth missing_password) = (400, error_text (auth missing_password))
map_auth_error (auth email_already_used) = (409, error_text (auth email_already_used))
map_auth_error (auth invalid_credentials) = (401, error_text (auth invalid_credentials))
map_auth_error (auth invalid_refresh_token) = (401, error_text (auth invalid_refresh_token))
map_auth_error _ = internal

unfoldable pub message_status : MessageError → ℕ
message_status message_not_found = 404
message_status edit_not_allowed = 403
message_status MessageError.delete_not_allowed = 403
message_status _ = 400

-- mapMessageError
unfoldable pub map_message_error : Error → ℕ × String
unfolding message_status
map_message_error (message e) = (message_status e, error_text (message e))
map_message_error _ = internal

unfoldable pub room_status : RoomError → ℕ
room_status room_not_found = 404
room_status RoomError.delete_not_allowed = 403
room_status _ = 400

-- The `default` of mapRoomError and mapUserError.
unfoldable pub prefixed : String → String → ℕ × String
prefixed prefix text = if has_prefix prefix text then (400, text) else internal

-- A foreign key that is violated names the entity that is missing.
unfoldable pub missing_entity : String → ℕ × String
missing_entity constraint =
    if contains "user" constraint
    then (404, "rooms: user not found")
    else if contains "room" constraint
    then (404, "rooms: room not found")
    else (404, "rooms: related entity not found")

-- mapRoomError
unfoldable pub map_room_error : Error → ℕ × String
unfolding room_status prefixed missing_entity
map_room_error (room e) = (room_status e, error_text (room e))
map_room_error (pg code constraint text) =
    if eqb code "23503"
    then missing_entity constraint
    else if eqb code "23505"
    then (409, "rooms: duplicate record")
    else prefixed "rooms:" text
map_room_error e = prefixed "rooms:" (error_text e)

-- mapUserError
unfoldable pub map_user_error : Error → ℕ × String
unfolding prefixed
map_user_error user_not_found = (404, error_text user_not_found)
map_user_error e = prefixed "users:" (error_text e)
