-- ===== src/Http/MessageHandler/Elsewhere.antt =====
-- `edit` and `remove` of internal/delivery/http/message_handler.go, asked through the path of a room.
use chatter_stack.Base.{String, ◌≡◌, refl, false, some, eqb, trim_space}
use chatter_stack.Exec.{ok}
use chatter_stack.Models.{Message}
use chatter_stack.Messages
use chatter_stack.Messages.{Service, changed, deleted, publish_room_event}
use chatter_stack.Messages.Owner.{edit_by_sender, delete_by_sender}
use chatter_stack.Http.Request.{error, Response, Request, current_user_id}
use chatter_stack.Http.MessageHandler.{edit, remove, in_room}

abbrev pub not_found : Response
not_found = record { status = 404; body = error "messages: message not found" }

module _ {W : Type 0} (s : Service W) where
  open s use {repo}

  -- A message that the service lets the user edit through the path of another room than its own is
  -- answered as not found, with 404, though the repository has stored the new content, trimmed, and
  -- the message's room has been told of it.
  pub edited_elsewhere :
      (r : Request) (user content : String) (m : Message) (w w' : W)
      → current_user_id r ≡ some user
      → Messages.edit s (r.param "messageID") user content w ≡ (ok m, w')
      → eqb m.room_id (r.param "roomID") ≡ false
      → (edit s r (some content) w ≡ (not_found, w'))
        × (w0 : W) × (w1 : W) × (repo.update_content
              (trim_space (r.param "messageID"))
              (trim_space content)
              w0
            ≡ (ok m, w1))
        × (publish_room_event s s.pub_sub m.room_id (changed m) w1 ≡ (ok tt, w'))
  unfolding edit in_room
  edited_elsewhere r user content m w w' u h e =
      let (filled, old, found, own, w1, stored, told) =
        edit_by_sender s (r.param "messageID") user content w w' m h in
      (rw (u, h, e) refl, (repo.get_by_id (trim_space (r.param "messageID")) w).1, w1, stored, told)

  -- A message that the service lets the user delete through the path of another room than its own
  -- is answered as not found, with 404, though the repository has deleted it and its room has
  -- been told of it.
  pub removed_elsewhere :
      (r : Request) (user : String) (m : Message) (w w' : W)
      → current_user_id r ≡ some user
      → Messages.delete s (r.param "messageID") user w ≡ (ok m, w')
      → eqb m.room_id (r.param "roomID") ≡ false
      → (remove s r w ≡ (not_found, w'))
        × (w0 : W) × (w1 : W) × (repo.delete (trim_space (r.param "messageID")) w0 ≡ (ok tt, w1))
        × (publish_room_event s s.pub_sub m.room_id (deleted m.id m.room_id) w1 ≡ (ok tt, w'))
  unfolding remove in_room
  removed_elsewhere r user m w w' u h e =
      let (found, own, w1, gone, told) = delete_by_sender s (r.param "messageID") user w w' m h in
      (rw (u, h, e) refl, (repo.get_by_id (trim_space (r.param "messageID")) w).1, w1, gone, told)
