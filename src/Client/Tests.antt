-- ===== src/Client/Tests.antt =====
-- A connected client in the rooms "r1" and "r2", and a lister that knows the members of "r1".
use chatter_stack.Base.{
  ℕ, String, ◌≡◌, refl, true, ◌&&◌, none, some, List, [], ◌∷◌, eqb, trim_space, is_space,
  if◌then◌else◌,
}
use chatter_stack.Errors.{no_rows}
use chatter_stack.Exec.{Exec, ok, err}
use chatter_stack.Models.{Message, RoomMember}
use chatter_stack.Messages.{new_message}
use chatter_stack.Hub.{Broadcast}
use chatter_stack.Client.{
  Client, SendMessagePayload, is_member, handle_send_message, handle_typing_event, authorizes,
  filter_authorized_rooms,
}
use chatter_stack.Client.Membership.{typing_stays_inside, outsider_sends_nothing, authorized_rooms}

-- The world is the list of messages stored.
abbrev ann : Client (List Message)
ann = record {
  c = 1;
  user_id = "u1";
  username = "ann";
  rooms = "r1" ∷ "r2" ∷ [];
  sender = some (λ input w. (ok (new_message input), new_message input ∷ w));
  encode_message = λ m. ok m.content;
  encode_typing = λ event notice. ok event;
}

client_code : Unit {0}
unfolding handle_send_message handle_typing_event is_member filter_authorized_rooms authorizes
    trim_space is_space
client_code = tt

abbrev notice : Broadcast
notice = record { room_id = "r1"; payload = "typing_start"; exclude = some 1 }

typing_stays_inside_at_work : (is_member ("r1" ∷ "r2" ∷ []) "r1" ≡ true) × (notice.exclude ≡ some 1)
unfolding client_code
typing_stays_inside_at_work = typing_stays_inside ann "typing_start" " r1" notice refl

abbrev payload : String → SendMessagePayload
payload room_id = record { room_id = room_id; content = " hi "; attachments = [] }

outsider_sends_nothing_at_work : handle_send_message ann (payload "r3") [] ≡ (none, [])
unfolding client_code
outsider_sends_nothing_at_work = outsider_sends_nothing ann (payload "r3") [] refl

-- A member's message is stored trimmed, and told to everybody in the room.
member_sends :
    (handle_send_message ann (payload " r2") []).0
    ≡ some (record { room_id = "r2"; payload = "hi"; exclude = none })
unfolding client_code
member_sends = refl

abbrev list_members : String → Exec ℕ (List RoomMember)
list_members room_id w = (
  if eqb room_id "r1"
      then ok (record { id = "m1"; room_id = "r1"; user_id = "u1"; role = "member" } ∷ [])
      else err no_rows,
  w,
)

authorized_rooms_at_work :
    is_member (filter_authorized_rooms list_members "u1" ("r2" ∷ "r1" ∷ []) 0).0 "r1"
    ≡ (is_member ("r2" ∷ "r1" ∷ []) "r1" && authorizes "u1" (list_members "r1" 0).0)
authorized_rooms_at_work =
    authorized_rooms list_members "u1" ("r2" ∷ "r1" ∷ []) 0 (λ q r w. refl) "r1"
