-- ===== src/Rooms.antt =====
-- internal/domain/rooms/service_impl.go: the room service. Its repository and its publisher are
-- parameters, as in the source; so are `json.Marshal` and the order in which Go runs through a map.
pub mod Members
pub mod Creation
pub mod Direct
pub mod Reuse
pub mod Access
pub mod Tests
use chatter_stack.Base.{
  String, cat, Bool, true, false, ◌||◌, not, Option, none, some, List, [], ◌∷◌, ◌++◌, ℤ, pos, leb_ℤ,
  ltb_ℤ, eqb, trim_space, less, if◌then◌else◌,
}
use chatter_stack.Errors.{
  Error, room, other, is_no_rows, invalid_room_name, invalid_creator_id, invalid_member_user,
  RoomError, direct_message_self, room_not_found,
}
use chatter_stack.Exec.{
  Result, ok, err, Exec, pure, fail, map_err, ignore, try, refuse, each, ◌>>=◌, ◌>>◌,
}
use chatter_stack.Models.{Room, RoomMember, role_admin, role_member}

-- `create` returns the room and the members as the repository has completed them.
pub record RoomRepository (W : Type 0) : Type 0 where
  pub create : Room → List RoomMember → Exec W (Room × List RoomMember)
  pub add_member : RoomMember → Exec W (Unit {0})
  pub remove_member : String → String → Exec W (Unit {0})
  pub list_members : String → Exec W (List RoomMember)
  pub search : String → String → ℤ → Exec W (List Room)
  pub find_direct_room : String → String → Exec W Room
  pub get_by_id : String → Exec W Room
  pub delete : String → Exec W (Unit {0})

-- Channel and payload.
abbrev pub Publisher : Type 0 → Type 0
Publisher W = String → String → Exec W (Unit {0})

pub record RoomMemberInput : Type 0 where
  pub user_id : String
  pub role : String

pub record CreateRoomInput : Type 0 where
  pub name : String
  pub is_group : Bool
  pub creator_id : String
  pub members : List RoomMemberInput

-- `marshal r` is the JSON of the event "room_added" with the room `r` as its data; `iterate` lists
-- the values of a map in the order of one `range` over it.
pub record Service (W : Type 0) : Type 0 where
  pub repo : RoomRepository W
  pub pub_sub : Option (Publisher W)
  pub marshal : Room → Result String
  pub iterate : List RoomMember → List RoomMember

abbrev pub default_search_limit : ℤ
default_search_limit = pos 20

abbrev pub max_search_limit : ℤ
max_search_limit = pos 100

abbrev pub or_default : String → String
or_default role = if eqb role "" then role_member else role

abbrev pub is_blank : String → Bool
is_blank s = eqb (trim_space s) ""

-- `_, exists := seen[userID]`
unfoldable pub exists : String → List RoomMember → Bool
exists user [] = false
exists user (m ∷ seen) = eqb m.user_id user || exists user seen

unfoldable pub member : String → String → RoomMember
member user role = record { id = ""; room_id = ""; user_id = user; role = role }

-- The loop of `buildMembers`; a new key goes to the end of the map's entries.
collect : List RoomMember → List RoomMemberInput → List RoomMember
unfolding exists member
collect seen [] = seen
collect seen (m ∷ rest) =
    let user = trim_space m.user_id in
    collect
      (if eqb user "" || exists user seen
        then seen
        else seen ++ member user (or_default m.role) ∷ [])
      rest

pub seen_members : CreateRoomInput → List RoomMember
unfolding collect member
seen_members input = collect (member input.creator_id role_admin ∷ []) input.members

unfoldable pub normalize_pair : String → String → String × String
normalize_pair a b = if less a b then (a, b) else (b, a)

-- A look-up that finds nothing is reported as a missing room.
abbrev pub hide_missing : Error → Error
hide_missing e = if is_no_rows e then room room_not_found else e

abbrev pub new_room : CreateRoomInput → Room
new_room input = record {
  id = "";
  name = trim_space input.name;
  is_group = input.is_group;
  created_by = input.creator_id;
  created_at = 0;
}

abbrev pub direct_input : String → String → String × String → CreateRoomInput
direct_input user_a user_b (primary, secondary) = record {
  name = cat "dm:" (cat primary (cat ":" secondary));
  is_group = false;
  creator_id = user_a;
  members = record { user_id = user_b; role = role_member } ∷ [];
}

abbrev pub clamp_limit : ℤ → ℤ
clamp_limit limit =
    let limit' = if leb_ℤ limit (pos 0) then default_search_limit else limit in
    if ltb_ℤ max_search_limit limit' then max_search_limit else limit'

-- `len(members) == 0`
is_empty : List RoomMember → Bool
is_empty [] = true
is_empty (m ∷ members) = false

module _ {W : Type 0} (s : Service W) where
  open s use {repo}

  publish_marshaled : Publisher W → String → Result String → Exec W (Unit {0})
  publish_marshaled publish user (ok bytes) = publish (cat "users:" (cat user ":events")) bytes
  publish_marshaled publish user (err e) = fail e

  -- s.publishRoomAdded, through a publisher that is there
  publish_room_added : Publisher W → Room → String → Exec W (Unit {0})
  unfolding publish_marshaled
  publish_room_added publish r user = publish_marshaled publish user (s.marshal r)

  pub announce : Option (Publisher W) → Room → List RoomMember → Exec W (Unit {0})
  unfolding publish_room_added
  announce none r members = pure tt
  announce (some publish) r members =
      each (λ m. ignore (publish_room_added publish r m.user_id)) members

  pub create : CreateRoomInput → Exec W Room
  unfolding announce is_empty
  create input = do
    refuse (eqb (trim_space input.name) "") (room invalid_room_name)
    refuse (is_blank input.creator_id) (room invalid_creator_id)
    let members = s.iterate (seen_members input)
    refuse (is_empty members) (other "rooms: at least creator must be a member")
    (r, stored) ← repo.create (new_room input) members
    announce s.pub_sub r stored
    pure r

  announce_found : Option (Publisher W) → Result Room → String → Exec W (Unit {0})
  unfolding publish_room_added
  announce_found none found user = pure tt
  announce_found (some publish) (ok r) user = ignore (publish_room_added publish r user)
  announce_found (some publish) (err e) user = pure tt

  -- `s.pub != nil`: only then is the room fetched.
  announce_added : Option (Publisher W) → String → String → Exec W (Unit {0})
  unfolding announce_found
  announce_added none room_id user = pure tt
  announce_added (some publish) room_id user = do
    found ← try (repo.get_by_id room_id)
    announce_found (some publish) found user

  pub add_member : String → String → String → Exec W (Unit {0})
  unfolding announce_added
  add_member room_id user role = do
    refuse (is_blank room_id) (other "rooms: room id is required")
    refuse (is_blank user) (room invalid_member_user)
    repo.add_member (record { id = ""; room_id = room_id; user_id = user; role = or_default role })
    announce_added s.pub_sub room_id user

  pub remove_member : String → String → Exec W (Unit {0})
  remove_member room_id user = do
    refuse (is_blank room_id) (other "rooms: room id is required")
    refuse (is_blank user) (room invalid_member_user)
    repo.remove_member room_id user

  unfoldable pub list_members : String → Exec W (List RoomMember)
  list_members room_id = do
    refuse (is_blank room_id) (other "rooms: room id is required")
    repo.list_members room_id

  pub search : String → String → ℤ → Exec W (List Room)
  search user query limit = do
    refuse (is_blank user) (room RoomError.invalid_user_id)
    repo.search (trim_space user) (trim_space query) (clamp_limit limit)

  -- What follows the look-up of a direct room: it is there, there is none, or the look-up failed.
  pub found_or_create : String → String → Result Room → Exec W (Room × Bool)
  found_or_create user_a user_b (ok r) = pure (r, false)
  found_or_create user_a user_b (err e) =
      if is_no_rows e
      then (do
        r ← create (direct_input user_a user_b (normalize_pair user_a user_b))
        pure (r, true))
      else fail e

  pub find_pair : String × String → Exec W Room
  find_pair (primary, secondary) = repo.find_direct_room primary secondary

  pub ensure_direct_room : String → String → Exec W (Room × Bool)
  unfolding found_or_create find_pair
  ensure_direct_room a b = do
    let user_a = trim_space a
    let user_b = trim_space b
    refuse (eqb user_a "" || eqb user_b "") (room RoomError.invalid_user_id)
    refuse (eqb user_a user_b) (room direct_message_self)
    found ← try (find_pair (normalize_pair user_a user_b))
    found_or_create user_a user_b found

  pub delete : String → String → Exec W (Unit {0})
  delete id requester = do
    let room_id = trim_space id
    let requester_id = trim_space requester
    refuse (eqb room_id "") (other "rooms: room id is required")
    refuse (eqb requester_id "") (room RoomError.invalid_user_id)
    r ← map_err hide_missing (repo.get_by_id room_id)
    refuse (not (eqb r.created_by requester_id)) (room RoomError.delete_not_allowed)
    map_err hide_missing (repo.delete room_id)
