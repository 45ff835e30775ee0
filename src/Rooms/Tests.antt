-- ===== src/Rooms/Tests.antt =====
-- The room service at a concrete repository, a list of rooms with their members.
use chatter_stack.Base.{
  ◌≤◌, String, ◌≡◌, ◌≢◌, refl, ap, sym, Bool, true, false, ◌&&◌, not, none, some, List, [], ◌∷◌,
  arith, eqb, pos, trim_space, is_space, length, if◌then◌else◌, ◌==◌, ne_of_eqb,
}
use mathlib.Core.Option.{some-injective}
use chatter_stack.Errors.{no_rows, room, RoomError}
use chatter_stack.Exec.{Result, ok, err, map_result}
use chatter_stack.Models.{Room, RoomMember}
use chatter_stack.Rooms.{
  RoomRepository, Publisher, Service, CreateRoomInput, create, add_member, search,
  ensure_direct_room, delete, seen_members, normalize_pair, new_room,
}
use chatter_stack.Rooms.Members.{
  HasDistinctUsers, role_of, seen_members-HasDistinctUsers, role_of-seen_members,
}
use chatter_stack.Rooms.Creation.{Iterates, create_result}
use chatter_stack.Rooms.Direct.{ensure_direct_room_comm}
use chatter_stack.Rooms.Reuse.{FindsDirectRooms, ensure_direct_room_again}
use chatter_stack.Rooms.Access.{
  delete_by_creator, delete_refused, add_member_result, search_bounds, effective_limit,
}

abbrev Rooms : Type 0
Rooms = List (Room × List RoomMember)

abbrev has : String → List RoomMember → Bool
has u ms = elim (role_of u ms) [ none ↦ false | some r ↦ true ]

abbrev find : String → String → Rooms → Result Room
find p q [] = err no_rows
find p q ((r, ms) ∷ w) =
    if not r.is_group && (length ms == 2) && has p ms && has q ms then ok r else find p q w

abbrev by_id : String → Rooms → Result Room
by_id id [] = err no_rows
by_id id ((r, ms) ∷ w) = if eqb r.id id then ok r else by_id id w

abbrev in_memory : RoomRepository Rooms
in_memory = record {
  create = λ r ms w. (ok (record r { id = "r1" }, ms), (record r { id = "r1" }, ms) ∷ w);
  add_member = λ m w. (ok tt, w);
  remove_member = λ id u w. (ok tt, w);
  list_members = λ id w. (ok [], w);
  search = λ u q limit w. (ok [], w);
  find_direct_room = λ p q w. (find p q w, w);
  get_by_id = λ id w. (by_id id w, w);
  delete = λ id w. (ok tt, w);
}

abbrev service : Service Rooms
service = record {
  repo = in_memory;
  pub_sub = some (λ channel payload w. (ok tt, w));
  marshal = λ r. ok r.name;
  iterate = λ ms. ms;
}

service-Iterates : Iterates service.iterate
service-Iterates = record { roles = λ ms u d. refl; lengths = λ ms. refl }

has_of_role : (u : String) (ms : List RoomMember) → role_of u ms ≢ none → has u ms ≡ true
has_of_role u ms h = ground arith

find_created :
    (p q : String) (r r' : Room) (ms ms' : List RoomMember) (w w' : Rooms)
    → r.is_group ≡ false
    → length ms ≡ 2
    → role_of p ms ≢ none
    → role_of q ms ≢ none
    → in_memory.create r ms w ≡ (ok (r', ms'), w')
    → find p q w' ≡ ok r'
find_created p q r r' ms ms' w w' g n hp hq e =
    let found : find p q ((record r { id = "r1" }, ms) ∷ w) ≡ ok (record r { id = "r1" }) =
      ground (arith, has_of_role p ms hp, has_of_role q ms hq) in
    ground (arith, found)

service-FindsDirectRooms : FindsDirectRooms (λ r. r) (λ u. Unit {0}) service
service-FindsDirectRooms = record {
  finds = λ p q r r' ms ms' w0 w w' g i n hp hq d kp kq missing e.
      find_created p q r r' ms ms' w w' g n hp hq e;
  keeps = λ publish p q channel payload w e.
      ap (λ (f : Publisher Rooms). find p q (f channel payload w).1) (sym (some-injective _ _ e));
}

unfoldable pub room_code : Unit {0}
unfolding create add_member search ensure_direct_room delete seen_members normalize_pair is_space
    trim_space
room_code = tt

abbrev input : CreateRoomInput
input = record {
  name = " team ";
  is_group = true;
  creator_id = "ann";
  members =
      record { user_id = "bob"; role = "" }
      ∷ record { user_id = " ann "; role = "member" }
      ∷ record { user_id = "bob"; role = "admin" }
      ∷ record { user_id = "  "; role = "" }
      ∷ [];
}

-- Repeated and blank users are left out, and the creator stays an administrator.
input_members :
    seen_members input
    ≡ record { id = ""; room_id = ""; user_id = "ann"; role = "admin" }
      ∷ record { id = ""; room_id = ""; user_id = "bob"; role = "member" }
      ∷ []
unfolding room_code
input_members = refl

seen_members-HasDistinctUsers_at_work : HasDistinctUsers (seen_members input)
seen_members-HasDistinctUsers_at_work = seen_members-HasDistinctUsers input

role_of-seen_members_at_work : role_of "bob" (seen_members input) ≡ some "member"
unfolding room_code
role_of-seen_members_at_work = role_of-seen_members input "bob" (ne_of_eqb "bob" "" refl)

create_result_at_work :
    (create service input []).0
    ≡ map_result (λ p. p.0) (service.repo.create (new_room input) (seen_members input) []).0
unfolding room_code
create_result_at_work = create_result service input [] service-Iterates refl refl

abbrev dm : Room
dm = record { id = "r1"; name = "dm:ann:bob"; is_group = false; created_by = "bob"; created_at = 0 }

abbrev with_dm : Rooms
with_dm = (ensure_direct_room service "bob" " ann" []).1

made_dm : ensure_direct_room service "bob" " ann" [] ≡ (ok (dm, true), with_dm)
unfolding room_code
made_dm = refl

ensure_direct_room_again_at_work :
    ((ensure_direct_room service "bob" " ann" with_dm).0 ≡ ok (dm, false))
    × ((ensure_direct_room service " ann" "bob" with_dm).0 ≡ ok (dm, false))
ensure_direct_room_again_at_work =
    ensure_direct_room_again service service-FindsDirectRooms service-Iterates "bob" " ann" dm []
      with_dm tt tt made_dm

ensure_direct_room_comm_at_work :
    ensure_direct_room service " ann" "bob" with_dm ≡ (ok (dm, false), with_dm)
unfolding room_code
ensure_direct_room_comm_at_work =
    ensure_direct_room_comm service "bob" " ann" dm with_dm with_dm refl

delete_by_creator_example :
    (r : Room) × ((service.repo.get_by_id "r1" with_dm).0 ≡ ok r)
    × (r.created_by ≡ "bob")
    × (service.repo.delete "r1" with_dm ≡ (ok tt, with_dm))
unfolding room_code
delete_by_creator_example = delete_by_creator service "r1" " bob" with_dm with_dm refl

delete_refused_at_work :
    delete service "r1" "ann" with_dm ≡ (err (room RoomError.delete_not_allowed), with_dm)
unfolding room_code
delete_refused_at_work =
    delete_refused service "r1" "ann" dm with_dm refl refl refl (ne_of_eqb "bob" "ann" refl)

add_member_result_at_work : (add_member service "r1" "eve" "" with_dm).0 ≡ ok tt
unfolding room_code
add_member_result_at_work = add_member_result service "r1" "eve" "" with_dm refl refl

search_bounds_at_work :
    (search service "ann" " q " (pos 500) [] ≡ service.repo.search "ann" "q" (pos 100) [])
    × (1 ≤ effective_limit (pos 500))
    × (effective_limit (pos 500) ≤ 100)
unfolding room_code
search_bounds_at_work = search_bounds service "ann" " q " (pos 500) [] refl
