-- ===== src/Http/Answers.antt =====
-- What a client is told when the services refuse it: the errors of internal/domain/rooms and
-- internal/domain/messages as internal/delivery/http/helpers.go reports them.
use chatter_stack.Base.{ℕ, String, ◌≡◌, ◌≢◌, refl, false, trim_space}
use chatter_stack.Errors.{Error, no_rows}
use chatter_stack.Exec.{Result, ok, err}
use chatter_stack.Models.{Room, Message}
use chatter_stack.Rooms
use chatter_stack.Rooms.Access.{delete_refused, delete_missing}
use chatter_stack.Messages
use chatter_stack.Messages.Owner.{others_refused, change_missing}
use chatter_stack.Http.Failures.{map_room_error, map_message_error}

-- The answer to a call that failed, status 200 and an empty text to one that did not.
abbrev pub answer : {A : Type 0} → (Error → ℕ × String) → Result A → ℕ × String
answer f (ok a) = (200, "")
answer f (err e) = f e

module _ {W : Type 0} (s : Rooms.Service W) where
  -- For an id and a requester that are not blank, deleting a room that is not there is answered
  -- with 404, and deleting a room of somebody else with 403.
  pub delete_room_answers :
      (id requester : String) (r : Room) (w w' : W)
      → Rooms.is_blank id ≡ false
      → Rooms.is_blank requester ≡ false
      → (s.repo.get_by_id (trim_space id) w).0 ≡ err no_rows
      → (s.repo.get_by_id (trim_space id) w').0 ≡ ok r
      → r.created_by ≢ trim_space requester
      → ((answer map_room_error (Rooms.delete s id requester w).0).0 ≡ 404)
        × ((answer map_room_error (Rooms.delete s id requester w').0).0 ≡ 403)
  unfolding map_room_error
  delete_room_answers id requester r w w' h k missing found n = (
    rw (delete_missing s id requester w h k missing) refl,
    rw (delete_refused s id requester r w' h k found n) refl,
  )

module _ {W : Type 0} (s : Messages.Service W) where
  -- For an id, a user and a content that are not blank, editing or deleting a message that is not
  -- there is answered with 404, and a message of somebody else with 403.
  pub change_message_answers :
      (id user content : String) (m : Message) (w w' : W)
      → Messages.is_blank id ≡ false
      → Messages.is_blank user ≡ false
      → Messages.is_blank content ≡ false
      → (s.repo.get_by_id (trim_space id) w).0 ≡ err no_rows
      → (s.repo.get_by_id (trim_space id) w').0 ≡ ok m
      → m.sender_id ≢ trim_space user
      → ((answer map_message_error (Messages.edit s id user content w).0).0 ≡ 404)
        × ((answer map_message_error (Messages.delete s id user w).0).0 ≡ 404)
        × ((answer map_message_error (Messages.edit s id user content w').0).0 ≡ 403)
        × ((answer map_message_error (Messages.delete s id user w').0).0 ≡ 403)
  unfolding map_message_error
  change_message_answers id user content m w w' h k l missing found n =
      let (gone, gone') = change_missing s id user content w h k l missing in
      let (other, other') = others_refused s id user content m w' h k l found n in
      (rw gone refl, rw gone' refl, rw other refl, rw other' refl)
