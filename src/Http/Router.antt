-- ===== src/Http/Router.antt =====
-- internal/delivery/http/router.go: the routes, and the authentication that stands in front of most.
pub mod Guarded
pub mod Answering
pub mod Served
pub mod Outsiders
pub mod Routes
pub mod Tests
use chatter_stack.Base.{ℕ, String, Bool, true, false, Option, none, some, if◌then◌else◌}
use chatter_stack.Exec.{Result}
use chatter_stack.Auth
use chatter_stack.Users
use chatter_stack.Usecase.AuthUseCase
use chatter_stack.Rooms
use chatter_stack.Messages
use chatter_stack.Middleware.Bearer.{Outcome, aborted, passed, authenticate}
use chatter_stack.Http.Request.{Body, empty, error, Response, Request, Handler, reply}
use chatter_stack.Http.AuthHandler
use chatter_stack.Http.AuthHandler.{LoginBody}
use chatter_stack.Http.RoomHandler
use chatter_stack.Http.RoomHandler.{MemberBody}
use chatter_stack.Http.MessageHandler
use chatter_stack.Http.MessageHandler.{MessageBody}

pub record Services (W : Type 0) : Type 0 where
  pub auth : Auth.Service W
  pub users : Users.Service W
  pub rooms : Rooms.Service W
  pub messages : Messages.Service W

-- The routes, each with the body that its handler binds.
pub data Call : Type 0 where
  health : Call
  register : Option Auth.RegisterInput → Call
  login : Option LoginBody → Call
  refresh : Option String → Call
  logout : Option String → Call
  get_by_email : Call
  get_profile : Call
  update_status : Option String → Call
  search_rooms : Call
  create_room : Option Rooms.CreateRoomInput → Call
  ensure_direct_room : Option String → Call
  add_member : Option MemberBody → Call
  remove_member : Call
  list_members : Call
  delete_room : Call
  list_messages : Call
  send_message : Option MessageBody → Call
  mark_delivered : Call
  mark_read : Call
  edit_message : Option String → Call
  remove_message : Call
  search_messages : Call

-- The routes of the group that uses the authentication middleware.
unfoldable pub is_protected : Call → Bool
is_protected health = false
is_protected (register body) = false
is_protected (login body) = false
is_protected (refresh body) = false
is_protected (logout body) = false
is_protected _ = true

module _ {W : Type 0} (svc : Services W) where
  unfoldable pub handle : Call → Request → Handler W
  handle health r = reply 200 empty
  handle (register body) r = AuthHandler.register svc.auth body
  handle (login body) r = AuthHandler.login svc.auth body
  handle (refresh body) r = AuthHandler.refresh svc.auth body
  handle (logout body) r = AuthHandler.logout svc.auth body
  handle get_by_email r = AuthHandler.get_by_email svc.users r
  handle get_profile r = AuthHandler.get_profile svc.users r
  handle (update_status body) r = AuthHandler.update_status svc.users r body
  handle search_rooms r = RoomHandler.search svc.rooms r
  handle (create_room body) r = RoomHandler.create svc.rooms body
  handle (ensure_direct_room body) r = RoomHandler.ensure_direct_room svc.rooms r body
  handle (add_member body) r = RoomHandler.add_member svc.rooms r body
  handle remove_member r = RoomHandler.remove_member svc.rooms r
  handle list_members r = RoomHandler.list_members svc.rooms r
  handle delete_room r = RoomHandler.delete_room svc.rooms r
  handle list_messages r = MessageHandler.list_by_room svc.messages r
  handle (send_message body) r = MessageHandler.send svc.messages r body
  handle mark_delivered r = MessageHandler.mark_delivered svc.messages r
  handle mark_read r = MessageHandler.mark_read svc.messages r
  handle (edit_message body) r = MessageHandler.edit svc.messages r body
  handle remove_message r = MessageHandler.remove svc.messages r
  handle search_messages r = MessageHandler.search svc.messages r

  -- A request that is passed on goes to its handler with the user in its context.
  admit : Call → Request → Outcome → Handler W
  unfolding handle
  admit call r (aborted status text) = reply status (error text)
  admit call r (passed id) = handle call (record r { user_id = some id })

  -- `header` and `alt` are the headers "Authorization" and "X-Auth-Token".
  unfoldable pub serve : Call → String → String → Request → Handler W
  unfolding admit is_protected
  serve call header alt r w =
      let (outcome, w1) =
        authenticate (some (AuthUseCase.validate_access_token svc.auth)) header alt w in
      if is_protected call then admit call r outcome w1 else handle call r w
