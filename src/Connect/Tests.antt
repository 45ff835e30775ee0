-- ===== src/Connect/Tests.antt =====
-- A user who asks for two rooms over a websocket and is a member of one.
use chatter_stack.Base.{
  String, ◌≡◌, refl, ap, ◌&&◌, none, some, [], ◌∷◌, eqb, inl, inr, Bool-cases, if◌then◌else◌,
}
use chatter_stack.Errors.{no_rows}
use chatter_stack.Exec.{ok, err, Exec}
use chatter_stack.Models.{RoomMember, role_member}
use chatter_stack.Auth
use chatter_stack.Auth.Keys.{access_key}
use chatter_stack.Auth.Tests.{World, view, service, service-IsWorld, users, signed_in, auth_code}
use chatter_stack.Users
use chatter_stack.Rooms
use chatter_stack.Client.{is_member, authorizes, filter_authorized_rooms}
use chatter_stack.Middleware.Bearer.{extract_bearer_token}
use chatter_stack.Connect.{request_token, connect}
use chatter_stack.Connect.Authorized.{connected_is_authorized}

abbrev ann_in : String → RoomMember
ann_in room_id = record { id = "x"; room_id = room_id; user_id = "u1"; role = role_member }

abbrev profiles : Users.Service World
profiles = record {
  repo = record {
    get_by_id = users.get_by_id;
    get_by_email = users.get_by_email;
    update_status = users.update_status;
  };
  now = λ w. 0;
}

abbrev rooms : Rooms.Service World
rooms = record {
  repo = record {
    create = λ r ms w. (ok (r, ms), w);
    add_member = λ m w. (ok tt, w);
    remove_member = λ r u w. (ok tt, w);
    list_members = λ r w. (ok (if eqb r "r1" then ann_in r ∷ [] else []), w);
    search = λ u q limit w. (ok [], w);
    find_direct_room = λ a b w. (err no_rows, w);
    get_by_id = λ id w. (err no_rows, w);
    delete = λ id w. (ok tt, w);
  };
  pub_sub = none;
  marshal = λ r. ok "";
  iterate = λ ms. ms;
}

abbrev upgrade : Exec World (Unit {0})
upgrade w = (ok tt, w)

still : (r : String) (w : World) → (Rooms.list_members rooms r w).1 ≡ w
unfolding Rooms.list_members
still r w = elim (Bool-cases (Rooms.is_blank r)) [ inl e ↦ rw e refl | inr e ↦ rw e refl ]

abbrev after : World
after = (connect service profiles rooms upgrade "" " access_AA" ("r1" ∷ "r2" ∷ []) signed_in).1

connected_is_authorized_at_work :
    (view signed_in (access_key "access_AA") ≡ some "u1")
    × (is_member ("r1" ∷ []) "r2" ≡ (
        is_member ("r1" ∷ "r2" ∷ []) "r2"
        && authorizes "u1"
            (Rooms.list_members rooms "r2"
              (Auth.validate_access_token service (request_token "" " access_AA") signed_in).1).0))
unfolding auth_code connect request_token filter_authorized_rooms Rooms.list_members authorizes
    extract_bearer_token Users.get_by_id
connected_is_authorized_at_work =
    connected_is_authorized service profiles rooms upgrade service-IsWorld "" " access_AA"
      ("r1" ∷ "r2" ∷ []) ("r1" ∷ []) "u1" "ann" "r2" signed_in after
      (λ q r w. ap (λ v. (Rooms.list_members rooms r v).0) (still q w)) refl
