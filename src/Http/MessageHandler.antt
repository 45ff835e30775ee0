-- ===== src/Http/MessageHandler.antt =====
-- internal/delivery/http/message_handler.go, over the use case of messages.
pub mod Elsewhere
use chatter_stack.Base.{
  ℤ, pos, String, Bool, true, false, Option, none, some, List, [], ◌∷◌, eqb, trim_space,
  if◌then◌else◌,
}
use chatter_stack.Errors.{Error}
use chatter_stack.Exec.{Result, ok, err, Exec}
use chatter_stack.Models.{Attachment, Message}
use chatter_stack.Usecase.MessageUseCase
use chatter_stack.Messages.{Service, SendMessageInput}
use chatter_stack.Http.Failures.{map_message_error}
use chatter_stack.Http.Payloads.{to_message_payload, to_message_payloads}
use chatter_stack.Http.Request.{
  Body, error, message, messages, Response, Request, Handler, reject, answer_with, outcome, failure,
  shown, no_content, for_user, for_body, current_user_id, parse_positive, parse_pagination,
}

pub record AttachmentBody : Type 0 where
  pub url : String
  pub mime_type : String
  pub size_bytes : ℤ

pub record MessageBody : Type 0 where
  pub content : String
  pub attachments : List AttachmentBody

pub to_attachments : List AttachmentBody → List Attachment
to_attachments [] = []
to_attachments (att ∷ list) =
    record {
      id = "";
      message_id = "";
      url = att.url;
      mime_type = att.mime_type;
      size_bytes = att.size_bytes;
    }
    ∷ to_attachments list

module _ {W : Type 0} (s : Service W) where
  unfoldable pub send : Request → Option MessageBody → Handler W
  unfolding to_attachments
  send r body = for_body body λ req. for_user (current_user_id r) λ user_id.
      answer_with map_message_error (shown 201 λ m. message (to_message_payload m)) (
        MessageUseCase.send s (record {
          room_id = r.param "roomID";
          sender_id = user_id;
          content = req.content;
          attachments = to_attachments req.attachments;
        }))

  abbrev pub show_list : List Message → Response
  show_list = shown 200 λ list. messages (to_message_payloads list)

  unfoldable pub around_with : Request → Option ℤ → Handler W
  around_with r none = reject 400 "invalid limit parameter"
  around_with r (some limit) =
      answer_with map_message_error show_list
        (MessageUseCase.list_around s (r.param "roomID") (r.query "around_message_id") limit)

  unfoldable pub page_with : Request → Option (ℤ × ℤ) → Handler W
  page_with r none = reject 400 "invalid pagination parameters"
  page_with r (some (page, limit)) =
      answer_with map_message_error show_list
        (MessageUseCase.list_by_room s (r.param "roomID") page limit)

  unfoldable pub list_by_room : Request → Handler W
  unfolding around_with page_with
  list_by_room r w =
      if eqb (r.query "around_message_id") ""
      then page_with r (parse_pagination r) w
      else around_with r (parse_positive (pos 0) (r.query "limit")) w

  unfoldable pub mark_delivered : Request → Handler W
  mark_delivered r = for_user (current_user_id r) λ user_id.
      answer_with map_message_error no_content
        (MessageUseCase.mark_delivered s (r.param "messageID") user_id)

  unfoldable pub mark_read : Request → Handler W
  mark_read r = for_user (current_user_id r) λ user_id.
      answer_with map_message_error no_content
        (MessageUseCase.mark_read s (r.param "messageID") user_id)

  -- The room of the path is compared with that of the message after the service has done its work.
  unfoldable pub in_room : Request → (Message → Response) → Message → Response
  in_room r show m =
      if eqb m.room_id (r.param "roomID")
      then show m
      else record { status = 404; body = error "messages: message not found" }

  unfoldable pub edit : Request → Option String → Handler W
  unfolding in_room
  edit r body = for_user (current_user_id r) λ user_id. for_body body λ content.
      answer_with map_message_error (in_room r (shown 200 λ m. message (to_message_payload m)))
        (MessageUseCase.edit s (r.param "messageID") user_id content)

  unfoldable pub remove : Request → Handler W
  unfolding in_room
  remove r = for_user (current_user_id r) λ user_id.
      answer_with map_message_error (in_room r no_content)
        (MessageUseCase.delete s (r.param "messageID") user_id)

  unfoldable pub search_with : Request → String → Option ℤ → Handler W
  search_with r user_id none = reject 400 "invalid limit parameter"
  search_with r user_id (some limit) =
      answer_with map_message_error show_list
        (MessageUseCase.search s user_id (r.query "room_id") (trim_space (r.query "q")) limit)

  unfoldable pub search : Request → Handler W
  unfolding search_with
  search r = for_user (current_user_id r) λ user_id w.
      if eqb (trim_space (r.query "q")) ""
      then reject 400 "query parameter q is required" w
      else search_with r user_id (parse_positive (pos 0) (r.query "limit")) w
