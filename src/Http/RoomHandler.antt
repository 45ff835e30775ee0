-- ===== src/Http/RoomHandler.antt =====
-- internal/delivery/http/room_handler.go, over the use case of rooms.
use chatter_stack.Base.{ℤ, pos, String, Bool, Option, none, some, if◌then◌else◌}
use chatter_stack.Models.{Room}
use chatter_stack.Usecase.RoomUseCase
use chatter_stack.Rooms.{Service, CreateRoomInput}
use chatter_stack.Http.Failures.{map_room_error}
use chatter_stack.Http.Payloads.{to_room_payload, to_room_payloads, to_room_member_payloads}
use chatter_stack.Http.Request.{
  room, rooms, members, Response, Request, Handler, reject, answer_with, shown, no_content,
  for_user, for_body, current_user_id, parse_positive,
}

pub record MemberBody : Type 0 where
  pub user_id : String
  pub role : String

module _ {W : Type 0} (s : Service W) where
  unfoldable pub search_with : Request → String → Option ℤ → Handler W
  search_with r user_id none = reject 400 "invalid limit parameter"
  search_with r user_id (some limit) =
      answer_with map_room_error (shown 200 λ list. rooms (to_room_payloads list))
        (RoomUseCase.search s user_id (r.query "q") limit)

  unfoldable pub search : Request → Handler W
  unfolding search_with
  search r =
      for_user (current_user_id r)
        λ user_id. search_with r user_id (parse_positive (pos 0) (r.query "limit"))

  -- The creator is what the body says.
  unfoldable pub create : Option CreateRoomInput → Handler W
  create body = for_body body λ req.
      answer_with map_room_error (shown 201 λ x. room (to_room_payload x))
        (RoomUseCase.create s req)

  unfoldable pub created_or_found : Room × Bool → Response
  created_or_found (x, created) =
      shown (if created then 201 else 200) (λ x. room (to_room_payload x)) x

  unfoldable pub ensure_direct_room : Request → Option String → Handler W
  unfolding created_or_found
  ensure_direct_room r body = for_user (current_user_id r) λ user_id. for_body body λ peer_user_id.
      answer_with map_room_error created_or_found
        (RoomUseCase.ensure_direct_room s user_id peer_user_id)

  unfoldable pub add_member : Request → Option MemberBody → Handler W
  add_member r body = for_body body λ req.
      answer_with map_room_error no_content
        (RoomUseCase.add_member s (r.param "roomID") req.user_id req.role)

  unfoldable pub remove_member : Request → Handler W
  remove_member r =
      answer_with map_room_error no_content
        (RoomUseCase.remove_member s (r.param "roomID") (r.param "userID"))

  unfoldable pub list_members : Request → Handler W
  list_members r =
      answer_with map_room_error (shown 200 λ list. members (to_room_member_payloads list))
        (RoomUseCase.list_members s (r.param "roomID"))

  unfoldable pub delete_room : Request → Handler W
  delete_room r = for_user (current_user_id r) λ user_id.
      answer_with map_room_error no_content (RoomUseCase.delete s (r.param "roomID") user_id)
