-- ===== src/Postgres/RoomRepo.antt =====
-- internal/repository/postgres/room_repo.go
use chatter_stack.Base.{
  ℕ, suc, ◌+◌, ℤ, String, Bool, false, not, ◌&&◌, ◌||◌, List, [], ◌∷◌, ◌++◌, eqb, ltb, ◌==◌,
  if◌then◌else◌,
}
use chatter_stack.Errors.{no_rows}
use chatter_stack.Exec.{ok, Exec, pure, refuse, ◌>>=◌, ◌>>◌}
use chatter_stack.Models.{Room, RoomMember, Message}
use chatter_stack.Rooms.{RoomRepository}
use chatter_stack.Postgres.{
  Tables, Db, Env, in_micros, select, update_rows, any_row, order_by, limit_rows, first_row, exec,
  exec_rows, query, transaction,
}

unfoldable pub insert_room : Room → Tables → Tables
insert_room r t = record t { rooms = t.rooms ++ r ∷ [] }

unfoldable pub insert_member : RoomMember → Tables → Tables
insert_member m t = record t { members = t.members ++ m ∷ [] }

abbrev pub same_member : RoomMember → RoomMember → Bool
same_member m n = eqb n.room_id m.room_id && eqb n.user_id m.user_id

-- ON CONFLICT (room_id, user_id) DO UPDATE SET role = EXCLUDED.role
unfoldable pub upsert_member : RoomMember → Tables → Tables
unfolding insert_member any_row update_rows
upsert_member m t =
    if any_row (same_member m) t.members
    then record t {
      members = update_rows (same_member m) (λ n. record n { role = m.role }) t.members;
    }
    else insert_member m t

unfoldable pub delete_member : String → String → Tables → Tables
unfolding select
delete_member room_id user_id t = record t {
  members = select (λ m. not (eqb m.room_id room_id && eqb m.user_id user_id)) t.members;
}

-- Whether a message is one of the room.
abbrev message_is_in : String → List Message → String → Bool
message_is_in room_id messages id = any_row (λ m. eqb m.room_id room_id && eqb m.id id) messages

-- DELETE FROM rooms, with the rows that refer to the room by ON DELETE CASCADE.
unfoldable pub delete_room : String → Tables → Tables
unfolding select any_row
delete_room id t = record t {
  rooms = select (λ r. not (eqb r.id id)) t.rooms;
  members = select (λ m. not (eqb m.room_id id)) t.members;
  messages = select (λ m. not (eqb m.room_id id)) t.messages;
  receipts = select (λ x. not (message_is_in id t.messages x.message_id)) t.receipts;
}

abbrev pub has_id : String → Room → Bool
has_id id r = eqb r.id id

unfoldable pub is_user_in : String → String → List RoomMember → Bool
is_user_in user room_id [] = false
is_user_in user room_id (m ∷ ms) =
    (eqb m.room_id room_id && eqb m.user_id user) || is_user_in user room_id ms

-- SELECT COUNT(*) FROM room_members WHERE room_id = …
unfoldable pub count_members : String → List RoomMember → ℕ
count_members room_id [] = 0
count_members room_id (m ∷ ms) =
    let rest = count_members room_id ms in if eqb m.room_id room_id then suc rest else rest

-- COUNT(DISTINCT m.user_id) over the members of the room whose user is one of the two.
unfoldable pub count_users : String → String → String → List RoomMember → ℕ
unfolding is_user_in
count_users p q room_id ms =
    (if is_user_in p room_id ms then 1 else 0)
    + (if not (eqb p q) && is_user_in q room_id ms then 1 else 0)

-- The conditions of FindDirectRoom.
unfoldable pub is_direct : String → String → List RoomMember → Room → Bool
unfolding count_members count_users
is_direct p q ms r =
    not r.is_group && (count_members r.id ms == 2) && (count_users p q r.id ms == 2)

-- The rows of a room and of a member, `uuid` being the text of a UUID.
abbrev pub room_row : (String → String) → Room → Room
room_row uuid r = record r {
  id = uuid r.id;
  created_by = uuid r.created_by;
  created_at = in_micros r.created_at;
}

abbrev pub member_row : (String → String) → RoomMember → RoomMember
member_row uuid m = record m { id = uuid m.id; room_id = uuid m.room_id; user_id = uuid m.user_id }

abbrev pub newer : Room → Room → Bool
newer r x = ltb x.created_at r.created_at

module _ (env : Env) where
  unfoldable pub complete_room : Room → Exec Db Room
  complete_room r db = (
    ok (record r {
      id = if eqb r.id "" then env.new_id db else r.id;
      created_at = if r.created_at == 0 then env.now db else r.created_at;
    }),
    db,
  )

  unfoldable pub complete_member : String → RoomMember → Exec Db RoomMember
  complete_member room_id m db =
      (ok (record m { id = if eqb m.id "" then env.new_id db else m.id; room_id = room_id }), db)

  unfoldable pub insert_one : String → RoomMember → Exec Db RoomMember
  unfolding complete_member insert_member
  insert_one room_id m = do
    member ← complete_member room_id m
    exec env (member.id ∷ member.room_id ∷ member.user_id ∷ member.role ∷ [])
        (insert_member (member_row env.uuid member))
    pure member

  unfoldable pub insert_members : String → List RoomMember → Exec Db (List RoomMember)
  unfolding insert_one
  insert_members room_id [] = pure []
  insert_members room_id (m ∷ ms) = do
    member ← insert_one room_id m
    members ← insert_members room_id ms
    pure (member ∷ members)

  unfoldable pub insert_all : Room → List RoomMember → Exec Db (Room × List RoomMember)
  unfolding complete_room insert_room insert_members
  insert_all r ms = do
    room ← complete_room r
    exec env (room.id ∷ room.name ∷ room.created_by ∷ []) (insert_room (room_row env.uuid room))
    members ← insert_members room.id ms
    pure (room, members)

  unfoldable pub create : Room → List RoomMember → Exec Db (Room × List RoomMember)
  unfolding insert_all
  create r ms = transaction env (insert_all r ms)

  complete_added : RoomMember → Exec Db RoomMember
  complete_added m db = (ok (record m { id = if eqb m.id "" then env.new_id db else m.id }), db)

  unfoldable pub add_member : RoomMember → Exec Db (Unit {0})
  unfolding complete_added upsert_member
  add_member m = do
    member ← complete_added m
    exec env (member.id ∷ member.room_id ∷ member.user_id ∷ member.role ∷ [])
        (upsert_member (member_row env.uuid member))

  unfoldable pub remove_member : String → String → Exec Db (Unit {0})
  unfolding delete_member
  remove_member room_id user_id =
      exec env (room_id ∷ user_id ∷ []) (delete_member (env.uuid room_id) (env.uuid user_id))

  unfoldable pub get_by_id : String → Exec Db Room
  unfolding select
  get_by_id id = query env (id ∷ []) (λ t. first_row (select (has_id (env.uuid id)) t.rooms))

  unfoldable pub delete : String → Exec Db (Unit {0})
  unfolding delete_room any_row
  delete id = do
    found ←
        exec_rows env (id ∷ []) (λ t. any_row (has_id (env.uuid id)) t.rooms)
          (delete_room (env.uuid id))
    refuse (not found) no_rows

  unfoldable pub list_members : String → Exec Db (List RoomMember)
  unfolding select
  list_members room_id =
      query env (room_id ∷ []) (λ t. ok (select (λ m. eqb m.room_id (env.uuid room_id)) t.members))

  unfoldable pub search : String → String → ℤ → Exec Db (List Room)
  unfolding select is_user_in order_by limit_rows
  search user text limit = query env (user ∷ text ∷ []) λ t. limit_rows limit (
      order_by newer (
        env.scan_rooms (
          select
            (λ r.
              is_user_in (env.uuid user) r.id t.members && (eqb text "" || env.matches r.name text))
            t.rooms)))

  -- The columns are compared as texts here, with the texts that are given.
  unfoldable pub find_direct_room : String → String → Exec Db Room
  unfolding select is_direct
  find_direct_room p q =
      query env (p ∷ q ∷ [])
        λ t. first_row (env.scan_rooms (select (is_direct p q t.members) t.rooms))

  abbrev pub repository : RoomRepository Db
  repository = record {
    create = create;
    add_member = add_member;
    remove_member = remove_member;
    list_members = list_members;
    search = search;
    find_direct_room = find_direct_room;
    get_by_id = get_by_id;
    delete = delete;
  }
