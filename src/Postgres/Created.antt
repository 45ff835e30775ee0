-- ===== src/Postgres/Created.antt =====
-- What `Create` of internal/repository/postgres/room_repo.go leaves in the tables.
use mathlib.Core.List.{append_assoc, append-nil}
use chatter_stack.Base.{
  String, ◌≡◌, refl, sym, ap, ◌∙◌, subst, Option, none, some, List, [], ◌∷◌, ◌++◌, map, eqb, arith,
  true, false, inl, inr, ◌⊎◌, All, Option-cases, ◌==◌, if◌then◌else◌,
}
use chatter_stack.Errors.{Error}
use chatter_stack.Exec.{Result, ok, err, pure, ◌>>=◌, >>=-ok}
use chatter_stack.Models.{Room, RoomMember}
use chatter_stack.Postgres.{
  Tables, Db, Env, called, exec, exec_rows, wrote, transaction, begun, finish, committed,
}
use chatter_stack.Postgres.RoomRepo.{
  room_row, member_row, insert_room, insert_member, insert_one, insert_members, insert_all,
  complete_room, complete_member, create,
}

-- The rows of the members have been added to the table, all in the room, with the users asked for.
pub record IsInserted (uuid : String → String) (room_id : String) (ms ms' : List RoomMember)
    (db db' : Db) : Type 0 where
  pub tables :
      db'.tables ≡ record db.tables { members = db.tables.members ++ map (member_row uuid) ms' }
  pub placed : All (λ m. m.room_id ≡ room_id) ms'
  pub users : map (λ (m : RoomMember). m.user_id) ms' ≡ map (λ (m : RoomMember). m.user_id) ms

-- The rows of the room and of its members have been added, and nothing else has changed.
pub record IsCreated (env : Env) (r : Room) (ms : List RoomMember) (r' : Room)
    (ms' : List RoomMember) (db db' : Db) : Type 0 where
  pub tables : db'.tables ≡ record db.tables {
    rooms = db.tables.rooms ++ room_row env.uuid r' ∷ [];
    members = db.tables.members ++ map (member_row env.uuid) ms';
  }
  pub id : r'.id ≡ (if eqb r.id "" then env.new_id (called db) else r.id)
  pub name : r'.name ≡ r.name
  pub is_group : r'.is_group ≡ r.is_group
  pub created_by : r'.created_by ≡ r.created_by
  pub placed : All (λ m. m.room_id ≡ r'.id) ms'
  pub users : map (λ (m : RoomMember). m.user_id) ms' ≡ map (λ (m : RoomMember). m.user_id) ms

module _ (env : Env) where
  wrote-ok :
      {A : Type 0} (o : Option Error) (t : Tables) (a b : A) (db db' : Db)
      → wrote env o t a db ≡ (ok b, db')
      → (a ≡ b) × (db'.tables ≡ t)
  unfolding wrote
  wrote-ok none t a b db db' h = (ground arith, ground arith)
  wrote-ok (some e) t a b db db' h = cc

  pub exec-ok :
      (params : List String) (f : Tables → Tables) (db db' : Db) (u : Unit {0})
      → exec env params f db ≡ (ok u, db')
      → db'.tables ≡ f db.tables
  unfolding exec exec_rows
  exec-ok params f db db' u h =
      (wrote-ok (env.refuses params (f db.tables) db) (f db.tables) tt u db db' h).1

  insert_one-ok :
      (room_id : String) (m m' : RoomMember) (db db' : Db)
      → insert_one env room_id m db ≡ (ok m', db')
      → (db'.tables ≡ insert_member (member_row env.uuid m') db.tables)
        × (m'.room_id ≡ room_id)
        × (m'.user_id ≡ m.user_id)
  unfolding insert_one complete_member
  insert_one-ok room_id m m' db db' h =
      let made = record m { id = if eqb m.id "" then env.new_id db else m.id; room_id = room_id } in
      let params = made.id ∷ room_id ∷ m.user_id ∷ m.role ∷ [] in
      let (u, e, last) =
        >>=-ok (exec env params (insert_member (member_row env.uuid made))) (λ x w. (ok made, w)) db
          h in
      let done : (exec env params (insert_member (member_row env.uuid made)) db).1 ≡ db' =
        ap (λ p. p.1) last in
      let same : made ≡ m' = ground arith in
      let ran : exec env params (insert_member (member_row env.uuid made)) db ≡ (ok u, db') =
        ground arith in
      (
        exec-ok params (insert_member (member_row env.uuid made)) db db' u ran
            ∙ ap (λ x. insert_member (member_row env.uuid x) db.tables) same,
        sym (ap (λ (x : RoomMember). x.room_id) same),
        sym (ap (λ (x : RoomMember). x.user_id) same),
      )

  nothing-IsInserted : (room_id : String) (db : Db) → IsInserted env.uuid room_id [] [] db db
  nothing-IsInserted room_id db = record {
    tables = ap (λ l. record db.tables { members = l }) (sym (append-nil db.tables.members));
    placed = tt;
    users = refl;
  }

  insert_members-IsInserted :
      (room_id : String) (ms ms' : List RoomMember) (db db' : Db)
      → insert_members env room_id ms db ≡ (ok ms', db')
      → IsInserted env.uuid room_id ms ms' db db'
  unfolding insert_members insert_member
  insert_members-IsInserted room_id [] ms' db db' h =
      let none_made : [] ≡ ms' = ground arith in
      let same : db ≡ db' = ap (λ p. p.1) h in
      subst (λ l. IsInserted env.uuid room_id [] l db db') none_made
        (subst (λ d. IsInserted env.uuid room_id [] [] db d) same (nothing-IsInserted room_id db))
  insert_members-IsInserted room_id (m ∷ ms) ms' db db' h =
      let (m', e1, h1) =
        >>=-ok (insert_one env room_id m)
          (λ m'. insert_members env room_id ms >>= λ rest. pure (m' ∷ rest)) db h in
      let db1 = (insert_one env room_id m db).1 in
      let (rest, e2, last) =
        >>=-ok (insert_members env room_id ms) (λ rest. pure (m' ∷ rest)) db1 h1 in
      let db2 = (insert_members env room_id ms db1).1 in
      let (one, at, user) = insert_one-ok room_id m m' db db1 (ap (λ x. (x, db1)) e1) in
      let more = insert_members-IsInserted room_id ms rest db1 db2 (ap (λ x. (x, db2)) e2) in
      let all_made : m' ∷ rest ≡ ms' = ground arith in
      let same : db2 ≡ db' = ap (λ p. p.1) last in
      subst (λ l. IsInserted env.uuid room_id (m ∷ ms) l db db') all_made
        (subst (λ d. IsInserted env.uuid room_id (m ∷ ms) (m' ∷ rest) db d) same
          (record {
            tables =
                more.tables
                ∙ ap
                    (λ (t : Tables). record t {
                      members = t.members ++ map (member_row env.uuid) rest;
                    })
                    one
                ∙ ap (λ l. record db.tables { members = l })
                    (append_assoc db.tables.members (member_row env.uuid m' ∷ [])
                      (map (member_row env.uuid) rest));
            placed = (at, more.placed);
            users = ground (arith, user, more.users);
          }))

  insert_all-IsCreated :
      (r r' : Room) (ms ms' : List RoomMember) (db db' : Db)
      → insert_all env r ms (called db) ≡ (ok (r', ms'), db')
      → IsCreated env r ms r' ms' db db'
  unfolding insert_all complete_room insert_room
  insert_all-IsCreated r r' ms ms' db db' h =
      let db0 = called db in
      let made = record r {
        id = if eqb r.id "" then env.new_id db0 else r.id;
        created_at = if r.created_at == 0 then env.now db0 else r.created_at;
      } in
      let params = made.id ∷ r.name ∷ r.created_by ∷ [] in
      let (u, e1, h1) =
        >>=-ok (exec env params (insert_room (room_row env.uuid made)))
          (λ u. insert_members env made.id ms >>= λ members. pure (made, members)) db0 h in
      let db1 = (exec env params (insert_room (room_row env.uuid made)) db0).1 in
      let (members, e2, last) =
        >>=-ok (insert_members env made.id ms) (λ members. pure (made, members)) db1 h1 in
      let db2 = (insert_members env made.id ms db1).1 in
      let first =
        exec-ok params (insert_room (room_row env.uuid made)) db0 db1 u (ap (λ x. (x, db1)) e1) in
      let more = insert_members-IsInserted made.id ms members db1 db2 (ap (λ x. (x, db2)) e2) in
      let room_made : made ≡ r' = ground arith in
      let members_made : members ≡ ms' = ground arith in
      let same : db2 ≡ db' = ap (λ p. p.1) last in
      subst (λ x. IsCreated env r ms x ms' db db') room_made
        (subst (λ l. IsCreated env r ms made l db db') members_made
          (subst (λ d. IsCreated env r ms made members db d) same
            (record {
              tables =
                  more.tables
                  ∙ ap
                      (λ (t : Tables). record t {
                        members = t.members ++ map (member_row env.uuid) members;
                      })
                      first;
              id = refl;
              name = refl;
              is_group = refl;
              created_by = refl;
              placed = more.placed;
              users = more.users;
            })))

  -- A transaction that fails leaves the tables as they were, or as its statements did, if the answer
  -- of its commit was lost; one that succeeds leaves them as its statements did.
  finish-cases :
      {A : Type 0} (before : Tables) (x : Result A) (db : Db)
      → ((e : Error) × ((finish env before x db).0 ≡ err e)
          × ((finish env before x db).1.tables ≡ before))
        ⊎ ((a : A) × (x ≡ ok a)
            × (((finish env before x db).0 ≡ ok a)
                ⊎ ((e : Error) × ((finish env before x db).0 ≡ err e)
                    × (env.commits db ≡ some (e, true))))
            × ((finish env before x db).1.tables ≡ db.tables))
  unfolding finish committed
  finish-cases before (err e) db = inl (e, refl, refl)
  finish-cases before (ok a) db = elim (Option-cases (env.commits db)) [
    | inl f ↦ rw f (inr (a, refl, inl refl, refl))
    | inr ((e, true), f) ↦ rw f (inr (a, refl, inr (e, refl, refl), refl))
    | inr ((e, false), f) ↦ rw f (inl (e, refl, refl))
  ]

  -- `Create` of a room with members is done as a whole or not at all. Either it reports an error
  -- and the tables are as they were, whatever statement has failed; or exactly a room and its
  -- members have been added, which it returns, unless the answer to a commit that was done is
  -- lost, which it reports as an error. They are what was asked for: the room under a new id if
  -- it had none, the members in that room, for the users asked for and in their order.
  pub create_all_or_nothing :
      (r : Room) (ms : List RoomMember) (db : Db)
      → ((e : Error) × ((create env r ms db).0 ≡ err e)
          × ((create env r ms db).1.tables ≡ db.tables))
        ⊎ ((r' : Room) × (ms' : List RoomMember) × (((create env r ms db).0 ≡ ok (r', ms'))
              ⊎ ((e : Error) × (d : Db) × ((create env r ms db).0 ≡ err e)
                  × (env.commits d ≡ some (e, true))))
            × IsCreated env r ms r' ms' db (create env r ms db).1)
  unfolding create transaction begun
  create_all_or_nothing r ms db = elim (Option-cases (env.begins db)) [
    | inr (e, f) ↦ rw f (inl (e, refl, refl))
    | inl f ↦
        let done = insert_all env r ms (called db) in
        elim (finish-cases db.tables done.0 done.1) [
          | inl (e, g, same) ↦ rw f (inl (e, g, same))
          | inr ((r', ms'), g, told, same) ↦
              let made = insert_all-IsCreated r r' ms ms' db done.1 (ap (λ x. (x, done.1)) g) in
              rw f (
                inr (
                  r',
                  ms',
                  elim told [ inl h ↦ inl h | inr (e, h, lost) ↦ inr (e, done.1, h, lost) ],
                  record {
                    tables = same ∙ made.tables;
                    id = made.id;
                    name = made.name;
                    is_group = made.is_group;
                    created_by = made.created_by;
                    placed = made.placed;
                    users = made.users;
                  },
                ))
        ]
  ]
