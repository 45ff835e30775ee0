-- ===== src/Http/Router/Served.antt =====
-- What every route of internal/delivery/http can answer.
use chatter_stack.Base.{
  ℤ, String, Bool, true, false, Option, none, some, inl, inr, arith, eqb, pos, trim_space,
  Bool-cases,
}
use chatter_stack.Exec.{Result, ok, err}
use chatter_stack.Models.{Room, Message}
use chatter_stack.Auth
use chatter_stack.Users
use chatter_stack.Rooms
use chatter_stack.Messages
use chatter_stack.Middleware.Bearer.{authenticate, request_token, outcome_of}
use chatter_stack.Http.Hiding.{auth-IsAnswer, message-IsAnswer, room-IsAnswer, user-IsAnswer}
use chatter_stack.Http.Failures.{map_auth_error, map_message_error, map_room_error, map_user_error}
use chatter_stack.Http.Request.{
  error, message, shown, no_content, Response, Request, outcome, current_user_id, parse_positive,
  parse_pagination,
}
use chatter_stack.Http.Payloads.{to_message_payload}
use chatter_stack.Http.AuthHandler
use chatter_stack.Http.RoomHandler
use chatter_stack.Http.MessageHandler
use chatter_stack.Http.Router.{Services, Call, is_protected, handle, admit, serve}
use chatter_stack.Http.Router.Answering.{
  IsServed, for_body-IsServed, for_user-IsServed, unless-IsServed, answer-IsServed,
  unless_answer-IsServed, reject-IsServed, success,
}

module _ {W : Type 0} (svc : Services W) where
  in_room-IsServed :
      (r : Request) (show : Message → Response) (m : Message)
      → IsServed (show m)
      → IsServed (MessageHandler.in_room svc.messages r show m)
  unfolding MessageHandler.in_room IsServed
  in_room-IsServed r show m h = elim (Bool-cases (eqb m.room_id (r.param "roomID"))) [
    | inl e ↦ rw e h
    | inr e ↦ rw e (inr (inl (omega arith, omega arith)))
  ]

  list_rooms-IsServed :
      (r : Request) (id : String) (limit : Option ℤ) (w : W)
      → IsServed (RoomHandler.search_with svc.rooms r id limit w).0
  unfolding RoomHandler.search_with
  list_rooms-IsServed r id none w = reject-IsServed _ w
  list_rooms-IsServed r id (some limit) w =
      answer-IsServed map_room_error _ (Rooms.search svc.rooms id (r.query "q") limit) w
        room-IsAnswer (λ a. success _ (omega arith) (omega arith))

  around-IsServed :
      (r : Request) (limit : Option ℤ) (w : W)
      → IsServed (MessageHandler.around_with svc.messages r limit w).0
  unfolding MessageHandler.around_with
  around-IsServed r none w = reject-IsServed _ w
  around-IsServed r (some limit) w =
      answer-IsServed map_message_error _
        (Messages.list_around svc.messages (r.param "roomID") (r.query "around_message_id") limit) w
        message-IsAnswer (λ a. success _ (omega arith) (omega arith))

  page-IsServed :
      (r : Request) (p : Option (ℤ × ℤ)) (w : W)
      → IsServed (MessageHandler.page_with svc.messages r p w).0
  unfolding MessageHandler.page_with
  page-IsServed r none w = reject-IsServed _ w
  page-IsServed r (some (page, limit)) w =
      answer-IsServed map_message_error _
        (Messages.list_by_room svc.messages (r.param "roomID") page limit) w message-IsAnswer
        (λ a. success _ (omega arith) (omega arith))

  search-IsServed :
      (r : Request) (id : String) (limit : Option ℤ) (w : W)
      → IsServed (MessageHandler.search_with svc.messages r id limit w).0
  unfolding MessageHandler.search_with
  search-IsServed r id none w = reject-IsServed _ w
  search-IsServed r id (some limit) w =
      answer-IsServed map_message_error _
        (Messages.search svc.messages id (r.query "room_id") (trim_space (r.query "q")) limit) w
        message-IsAnswer (λ a. success _ (omega arith) (omega arith))

  list_messages-IsServed :
      (r : Request) (w : W) → IsServed (MessageHandler.list_by_room svc.messages r w).0
  unfolding MessageHandler.list_by_room
  list_messages-IsServed r w = elim (Bool-cases (eqb (r.query "around_message_id") "")) [
    | inl e ↦ rw e (page-IsServed r (parse_pagination r) w)
    | inr e ↦ rw e (around-IsServed r (parse_positive (pos 0) (r.query "limit")) w)
  ]

  created-IsServed : (p : Room × Bool) → IsServed (RoomHandler.created_or_found svc.rooms p)
  unfolding RoomHandler.created_or_found
  created-IsServed (x, true) = success _ (omega arith) (omega arith)
  created-IsServed (x, false) = success _ (omega arith) (omega arith)

  handle-IsServed : (call : Call) (r : Request) (w : W) → IsServed (handle svc call r w).0
  unfolding handle AuthHandler.register AuthHandler.login AuthHandler.refresh AuthHandler.logout
      AuthHandler.get_profile AuthHandler.get_by_email AuthHandler.update_status RoomHandler.search
      RoomHandler.create RoomHandler.created_or_found RoomHandler.ensure_direct_room
      RoomHandler.add_member RoomHandler.remove_member RoomHandler.list_members
      RoomHandler.delete_room MessageHandler.send MessageHandler.mark_delivered
      MessageHandler.mark_read MessageHandler.edit MessageHandler.remove MessageHandler.search
  handle-IsServed Call.health r w = success _ (omega arith) (omega arith)
  handle-IsServed (Call.register body) r w = for_body-IsServed body _ w λ b.
      answer-IsServed map_auth_error _ (Auth.register svc.auth b) w auth-IsAnswer
        (λ a. success _ (omega arith) (omega arith))
  handle-IsServed (Call.login body) r w = for_body-IsServed body _ w λ b.
      answer-IsServed map_auth_error _ (Auth.login svc.auth b.email b.password) w auth-IsAnswer
        (λ a. success _ (omega arith) (omega arith))
  handle-IsServed (Call.refresh body) r w = for_body-IsServed body _ w λ b.
      answer-IsServed map_auth_error _ (Auth.refresh svc.auth b) w auth-IsAnswer
        (λ a. success _ (omega arith) (omega arith))
  handle-IsServed (Call.logout body) r w = for_body-IsServed body _ w λ b.
      unless_answer-IsServed (eqb b "") _ map_auth_error _ (Auth.logout svc.auth b) w auth-IsAnswer
        (λ a. success _ (omega arith) (omega arith))
  handle-IsServed Call.get_by_email r w =
      unless_answer-IsServed (eqb (r.query "email") "") _ map_user_error _
        (Users.get_by_email svc.users (r.query "email")) w user-IsAnswer
        (λ a. success _ (omega arith) (omega arith))
  handle-IsServed Call.get_profile r w =
      answer-IsServed map_user_error _ (Users.get_by_id svc.users (r.param "userID")) w
        user-IsAnswer (λ a. success _ (omega arith) (omega arith))
  handle-IsServed (Call.update_status body) r w = for_body-IsServed body _ w λ b.
      unless_answer-IsServed (eqb b "") _ map_user_error _
        (Users.update_status svc.users (r.param "userID") b) w user-IsAnswer
        (λ a. success _ (omega arith) (omega arith))
  handle-IsServed Call.search_rooms r w =
      for_user-IsServed (current_user_id r) _ w
        λ id. list_rooms-IsServed r id (parse_positive (pos 0) (r.query "limit")) w
  handle-IsServed (Call.create_room body) r w = for_body-IsServed body _ w λ b.
      answer-IsServed map_room_error _ (Rooms.create svc.rooms b) w room-IsAnswer
        (λ a. success _ (omega arith) (omega arith))
  handle-IsServed (Call.ensure_direct_room body) r w =
      for_user-IsServed (current_user_id r) _ w λ id. for_body-IsServed body _ w λ b.
        answer-IsServed map_room_error _ (Rooms.ensure_direct_room svc.rooms id b) w room-IsAnswer
          created-IsServed
  handle-IsServed (Call.add_member body) r w = for_body-IsServed body _ w λ b.
      answer-IsServed map_room_error _
        (Rooms.add_member svc.rooms (r.param "roomID") b.user_id b.role) w room-IsAnswer
        (λ a. success _ (omega arith) (omega arith))
  handle-IsServed Call.remove_member r w =
      answer-IsServed map_room_error _
        (Rooms.remove_member svc.rooms (r.param "roomID") (r.param "userID")) w room-IsAnswer
        (λ a. success _ (omega arith) (omega arith))
  handle-IsServed Call.list_members r w =
      answer-IsServed map_room_error _ (Rooms.list_members svc.rooms (r.param "roomID")) w
        room-IsAnswer (λ a. success _ (omega arith) (omega arith))
  handle-IsServed Call.delete_room r w = for_user-IsServed (current_user_id r) _ w λ id.
      answer-IsServed map_room_error _ (Rooms.delete svc.rooms (r.param "roomID") id) w
        room-IsAnswer (λ a. success _ (omega arith) (omega arith))
  handle-IsServed Call.list_messages r w = list_messages-IsServed r w
  handle-IsServed (Call.send_message body) r w = for_body-IsServed body _ w λ b.
      for_user-IsServed (current_user_id r) _ w λ id.
        answer-IsServed map_message_error (shown 201 λ m. message (to_message_payload m))
          (Messages.send svc.messages (record {
            room_id = r.param "roomID";
            sender_id = id;
            content = b.content;
            attachments = MessageHandler.to_attachments b.attachments;
          }))
          w message-IsAnswer (λ a. success _ (omega arith) (omega arith))
  handle-IsServed Call.mark_delivered r w = for_user-IsServed (current_user_id r) _ w λ id.
      answer-IsServed map_message_error _
        (Messages.mark_delivered svc.messages (r.param "messageID") id) w message-IsAnswer
        (λ a. success _ (omega arith) (omega arith))
  handle-IsServed Call.mark_read r w = for_user-IsServed (current_user_id r) _ w λ id.
      answer-IsServed map_message_error _ (Messages.mark_read svc.messages (r.param "messageID") id)
        w message-IsAnswer (λ a. success _ (omega arith) (omega arith))
  handle-IsServed (Call.edit_message body) r w = for_user-IsServed (current_user_id r) _ w λ id.
      for_body-IsServed body _ w λ b.
        answer-IsServed map_message_error _ (Messages.edit svc.messages (r.param "messageID") id b)
          w message-IsAnswer
          λ m.
            in_room-IsServed r (shown 200 λ m. message (to_message_payload m)) m
              (success _ (omega arith) (omega arith))
  handle-IsServed Call.remove_message r w = for_user-IsServed (current_user_id r) _ w λ id.
      answer-IsServed map_message_error _ (Messages.delete svc.messages (r.param "messageID") id) w
        message-IsAnswer
        λ m. in_room-IsServed r no_content m (success _ (omega arith) (omega arith))
  handle-IsServed Call.search_messages r w = for_user-IsServed (current_user_id r) _ w λ id.
      unless-IsServed (eqb (trim_space (r.query "q")) "") _
        (MessageHandler.search_with svc.messages r id (parse_positive (pos 0) (r.query "limit"))) w
        (search-IsServed r id (parse_positive (pos 0) (r.query "limit")) w)

  refused-IsServed : (text : String) → IsServed (record { status = 401; body = error text })
  unfolding IsServed
  refused-IsServed text = inr (inl (omega arith, omega arith))

  checked-IsServed :
      (call : Call) (r : Request) (x : Result String) (w : W)
      → IsServed (admit svc call r (outcome_of x) w).0
  unfolding admit
  checked-IsServed call r (ok id) w = handle-IsServed call (record r { user_id = some id }) w
  checked-IsServed call r (err e) w = refused-IsServed "invalid access token"

  admitted :
      (call : Call) (header alt : String) (r : Request) (w : W)
      → IsServed
          (let (outcome, w1) =
              authenticate (some (Auth.validate_access_token svc.auth)) header alt w in
            admit svc call r outcome w1).0
  unfolding admit authenticate
  admitted call header alt r w = elim (Bool-cases (eqb (request_token header alt) "")) [
    | inl e ↦ rw e (refused-IsServed "missing bearer token")
    | inr e ↦
        let validated = Auth.validate_access_token svc.auth (request_token header alt) w in
        rw e (checked-IsServed call r validated.0 validated.1)
  ]

  -- Every route answers every request with a success (200 to 204), with an error of the client
  -- (400 to 499), or with 500 and a text that does not tell what went wrong.
  pub served :
      (call : Call) (header alt : String) (r : Request) (w : W)
      → IsServed (serve svc call header alt r w).0
  unfolding serve admit authenticate
  served call header alt r w = elim (Bool-cases (is_protected call)) [
    | inr p ↦ rw p (handle-IsServed call r w)
    | inl p ↦ rw p (admitted call header alt r w)
  ]
