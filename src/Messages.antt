-- ===== src/Messages.antt =====
-- internal/domain/messages/service_impl.go: the message service. Its repository and its publisher
-- are parameters, as in the source; so are `json.Marshal` and the clock.
pub mod Owner
pub mod Paging
pub mod Receipts
pub mod Sending
pub mod Tests
use chatter_stack.Base.{
  ℕ, String, cat, Bool, true, false, ◌&&◌, not, Option, none, some, List, [], ◌∷◌, ℤ, pos, leb_ℤ,
  ltb_ℤ, ◌-ℤ◌, ◌*ℤ◌, wrap, half, eqb, trim_space, if◌then◌else◌,
}
use chatter_stack.Errors.{
  Error, message, MessageError, is_no_rows, invalid_room_id, invalid_sender_id, invalid_content,
  invalid_message_id, invalid_search, message_not_found, edit_not_allowed,
}
use chatter_stack.Exec.{Result, ok, err, Exec, pure, fail, map_err, refuse, ◌>>=◌, ◌>>◌}
use chatter_stack.Models.{
  Attachment, Message, MessageReceipt, status_sent, status_delivered, status_read,
}

-- `create` returns the message as the repository has completed it.
pub record MessageRepository (W : Type 0) : Type 0 where
  pub create : Message → Exec W Message
  pub list_by_room : String → ℤ → ℤ → Exec W (List Message)
  pub list_around : String → String → ℤ → ℤ → Exec W (List Message)
  pub update_status : String → String → Exec W (Unit {0})
  pub upsert_receipt : MessageReceipt → Exec W (Unit {0})
  pub search : String → String → String → ℤ → Exec W (List Message)
  pub get_by_id : String → Exec W Message
  pub update_content : String → String → Exec W Message
  pub delete : String → Exec W (Unit {0})

-- What is told to a room: a message that is new or edited, or the id of a deleted one and its room.
pub data RoomEvent : Type 0 where
  changed : Message → RoomEvent
  deleted : String → String → RoomEvent

-- Channel and payload.
abbrev pub Publisher : Type 0 → Type 0
Publisher W = String → String → Exec W (Unit {0})

pub record Service (W : Type 0) : Type 0 where
  pub repo : MessageRepository W
  pub pub_sub : Option (Publisher W)
  pub marshal : RoomEvent → Result String
  pub now : W → ℕ

pub record SendMessageInput : Type 0 where
  pub room_id : String
  pub sender_id : String
  pub content : String
  pub attachments : List Attachment

abbrev pub default_list_limit : ℤ
default_list_limit = pos 50

abbrev pub max_search_limit : ℤ
max_search_limit = pos 100

abbrev pub is_blank : String → Bool
is_blank s = eqb (trim_space s) ""

abbrev pub room_channel : String → String
room_channel room_id = cat "rooms:" (cat room_id ":messages")

-- A look-up that finds nothing is reported as a missing message.
abbrev pub hide_missing : Error → Error
hide_missing e = if is_no_rows e then message message_not_found else e

-- `if limit <= 0 { limit = defaultListLimit }`
abbrev pub or_default_limit : ℤ → ℤ
or_default_limit limit = if leb_ℤ limit (pos 0) then default_list_limit else limit

abbrev pub at_most : ℤ → ℤ → ℤ
at_most top limit = if ltb_ℤ top limit then top else limit

-- `len(payload.Attachments) == 0`
abbrev pub no_attachments : List Attachment → Bool
no_attachments [] = true
no_attachments (a ∷ list) = false

abbrev pub new_message : SendMessageInput → Message
new_message payload = record {
  id = "";
  room_id = payload.room_id;
  sender_id = payload.sender_id;
  content = trim_space payload.content;
  attachments = payload.attachments;
  status = status_sent;
  created_at = 0;
  updated_at = 0;
}

-- The row at which a page begins, in the `int` arithmetic of the source.
pub page_offset : ℤ → ℤ → ℤ
page_offset page limit =
    let page' = if leb_ℤ page (pos 0) then pos 1 else page in wrap (wrap (page' -ℤ pos 1) *ℤ limit)

-- How many messages `ListAround` asks for before its message, and after it.
pub around : ℤ → ℤ × ℤ
around limit =
    let before = half limit in
    let after = wrap (wrap (limit -ℤ before) -ℤ pos 1) in
    (before, if ltb_ℤ after (pos 0) then pos 0 else after)

module _ {W : Type 0} (s : Service W) where
  open s use {repo}

  publish_marshaled : Publisher W → String → Result String → Exec W (Unit {0})
  publish_marshaled publish room_id (ok data') = publish (room_channel room_id) data'
  publish_marshaled publish room_id (err e) = fail e

  -- `if s.pub != nil { if err := s.publishRoomEvent(...); err != nil { return nil, err } }`
  unfoldable pub publish_room_event : Option (Publisher W) → String → RoomEvent → Exec W (Unit {0})
  unfolding publish_marshaled
  publish_room_event none room_id payload = pure tt
  publish_room_event (some publish) room_id payload =
      publish_marshaled publish room_id (s.marshal payload)

  unfoldable pub send : SendMessageInput → Exec W Message
  send payload = do
    refuse (is_blank payload.room_id) (message invalid_room_id)
    refuse (is_blank payload.sender_id) (message invalid_sender_id)
    refuse (is_blank payload.content && no_attachments payload.attachments)
        (message invalid_content)
    msg ← repo.create (new_message payload)
    publish_room_event s.pub_sub msg.room_id (changed msg)
    pure msg

  pub list_by_room : String → ℤ → ℤ → Exec W (List Message)
  list_by_room room_id page limit = do
    refuse (is_blank room_id) (message invalid_room_id)
    let limit' = or_default_limit limit
    repo.list_by_room room_id limit' (page_offset page limit')

  list_window : String → String → ℤ × ℤ → Exec W (List Message)
  list_window room_id message_id (before, after) = repo.list_around room_id message_id before after

  pub list_around : String → String → ℤ → Exec W (List Message)
  unfolding list_window
  list_around room message_id limit = do
    let room_id = trim_space room
    let id = trim_space message_id
    refuse (eqb room_id "") (message invalid_room_id)
    refuse (eqb id "") (message invalid_message_id)
    list_window room_id id (around (or_default_limit limit))

  unfoldable pub mark_delivered : String → String → Exec W (Unit {0})
  mark_delivered message_id user_id = do
    refuse (is_blank message_id) (message invalid_message_id)
    refuse (is_blank user_id) (message MessageError.invalid_user_id)
    repo.upsert_receipt (record {
      id = "";
      message_id = message_id;
      user_id = user_id;
      status = status_delivered;
      seen_at = none;
    })
    repo.update_status message_id status_delivered

  unfoldable pub upsert_read : String → String → Exec W (Unit {0})
  upsert_read message_id user_id w =
      repo.upsert_receipt
        (record {
          id = "";
          message_id = message_id;
          user_id = user_id;
          status = status_read;
          seen_at = some (s.now w);
        })
        w

  unfoldable pub mark_read : String → String → Exec W (Unit {0})
  unfolding upsert_read
  mark_read message_id user_id = do
    refuse (is_blank message_id) (message invalid_message_id)
    refuse (is_blank user_id) (message MessageError.invalid_user_id)
    upsert_read message_id user_id
    repo.update_status message_id status_read

  pub search : String → String → String → ℤ → Exec W (List Message)
  search user room query limit = do
    refuse (is_blank user) (message MessageError.invalid_user_id)
    refuse (is_blank query) (message invalid_search)
    repo.search (trim_space user) (trim_space room) (trim_space query)
        (at_most max_search_limit (or_default_limit limit))

  pub edit : String → String → String → Exec W Message
  edit message_id user text = do
    let id = trim_space message_id
    let user_id = trim_space user
    let content = trim_space text
    refuse (eqb id "") (message invalid_message_id)
    refuse (eqb user_id "") (message MessageError.invalid_user_id)
    refuse (eqb content "") (message invalid_content)
    msg ← map_err hide_missing (repo.get_by_id id)
    refuse (not (eqb msg.sender_id user_id)) (message edit_not_allowed)
    updated ← repo.update_content id content
    publish_room_event s.pub_sub updated.room_id (changed updated)
    pure updated

  unfoldable pub delete : String → String → Exec W Message
  delete message_id user = do
    let id = trim_space message_id
    let user_id = trim_space user
    refuse (eqb id "") (message invalid_message_id)
    refuse (eqb user_id "") (message MessageError.invalid_user_id)
    msg ← map_err hide_missing (repo.get_by_id id)
    refuse (not (eqb msg.sender_id user_id)) (message MessageError.delete_not_allowed)
    repo.delete id
    publish_room_event s.pub_sub msg.room_id (deleted msg.id msg.room_id)
    pure msg
