-- ===== src/Http/Tests.antt =====
-- The answers at concrete requests.
use chatter_stack.Base.{
  Bool, ◌≡◌, refl, none, [], ◌∷◌, trim_space, is_space, ne_of_eqb, true, false, if◌then◌else◌,
}
use chatter_stack.Errors.{no_rows, pg, other}
use chatter_stack.Exec.{ok, err}
use chatter_stack.Models.{Room, Message}
use chatter_stack.Rooms
use chatter_stack.Messages
use chatter_stack.Http.Failures.{
  map_room_error, map_message_error, map_auth_error, map_user_error, has_prefix, contains,
}
use chatter_stack.Http.Answers.{answer, delete_room_answers, change_message_answers}
use chatter_stack.Http.Hiding.{IsAnswer, failures_are_hidden}
use chatter_stack.Http.Showing.{to_message_payloads_inj}

abbrev lounge : Room
lounge = record { id = "r1"; name = "lounge"; is_group = true; created_by = "ann"; created_at = 0 }

-- Worlds that have the room, or the message, if `true`.
abbrev rooms : Rooms.Service Bool
rooms = record {
  repo = record {
    create = λ r ms w. (ok (r, ms), true);
    add_member = λ m w. (ok tt, w);
    remove_member = λ id u w. (ok tt, w);
    list_members = λ id w. (ok [], w);
    search = λ u q limit w. (ok [], w);
    find_direct_room = λ p q w. (err no_rows, w);
    get_by_id = λ id w. (if w then ok lounge else err no_rows, w);
    delete = λ id w. (ok tt, false);
  };
  pub_sub = none;
  marshal = λ r. ok r.name;
  iterate = λ ms. ms;
}

delete_room_answers_at_work :
    ((answer map_room_error (Rooms.delete rooms "r1" "bob" false).0).0 ≡ 404)
    × ((answer map_room_error (Rooms.delete rooms "r1" "bob" true).0).0 ≡ 403)
unfolding trim_space is_space
delete_room_answers_at_work =
    delete_room_answers rooms "r1" "bob" lounge false true refl refl refl refl
      (ne_of_eqb "ann" "bob" refl)

abbrev hello : Message
hello = record {
  id = "m1";
  room_id = "r1";
  sender_id = "ann";
  content = "hello";
  attachments = [];
  status = "SENT";
  created_at = 0;
  updated_at = 0;
}

abbrev messages : Messages.Service Bool
messages = record {
  repo = record {
    create = λ m w. (ok m, true);
    list_by_room = λ room limit offset w. (ok [], w);
    list_around = λ room id before after w. (ok [], w);
    update_status = λ id status w. (ok tt, w);
    upsert_receipt = λ r w. (ok tt, w);
    search = λ user room query limit w. (ok [], w);
    get_by_id = λ id w. (if w then ok hello else err no_rows, w);
    update_content = λ id content w. (ok hello, w);
    delete = λ id w. (ok tt, false);
  };
  pub_sub = none;
  marshal = λ e. ok "{}";
  now = λ w. 0;
}

change_message_answers_at_work :
    ((answer map_message_error (Messages.edit messages "m1" "bob" "x" false).0).0 ≡ 404)
    × ((answer map_message_error (Messages.delete messages "m1" "bob" false).0).0 ≡ 404)
    × ((answer map_message_error (Messages.edit messages "m1" "bob" "x" true).0).0 ≡ 403)
    × ((answer map_message_error (Messages.delete messages "m1" "bob" true).0).0 ≡ 403)
unfolding trim_space is_space
change_message_answers_at_work =
    change_message_answers messages "m1" "bob" "x" hello false true refl refl refl refl refl
      (ne_of_eqb "ann" "bob" refl)

failures_are_hidden_at_work :
    IsAnswer (map_auth_error (pg "23505" "users_email_key" "duplicate key"))
    × IsAnswer (map_message_error (pg "23505" "users_email_key" "duplicate key"))
    × IsAnswer (map_room_error (pg "23505" "users_email_key" "duplicate key"))
    × IsAnswer (map_user_error (pg "23505" "users_email_key" "duplicate key"))
failures_are_hidden_at_work = failures_are_hidden (pg "23505" "users_email_key" "duplicate key")

to_message_payloads_inj_at_work : hello ∷ [] ≡ hello ∷ []
to_message_payloads_inj_at_work = to_message_payloads_inj (hello ∷ []) (hello ∷ []) refl

-- A foreign key is told by its name, and a duplicate by its code.
room_conflicts :
    (map_room_error (pg "23503" "room_members_user_id_fkey" "violates")
      ≡ (404, "rooms: user not found"))
    × (map_room_error (pg "23505" "x" "duplicate") ≡ (409, "rooms: duplicate record"))
    × (map_room_error (other "rooms: room id is required") ≡ (400, "rooms: room id is required"))
unfolding map_room_error has_prefix contains
room_conflicts = (refl, refl, refl)
