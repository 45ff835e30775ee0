-- ===== src/Postgres/DirectRooms.antt =====
-- internal/repository/postgres/room_repo.go keeps what the room service relies on for direct rooms.
use chatter_stack.Base.{
  String, ◌≡◌, ◌≢◌, refl, sym, ap, ◌∙◌, subst, true, false, Option, none, some, List, [], ◌∷◌, ◌++◌,
  eqb, eq_iff, suc, map, Bool-cases, arith, if◌then◌else◌, All, length, inl, inr,
}
use chatter_stack.Errors.{no_rows}
use chatter_stack.Exec.{Result, ok, err}
use chatter_stack.Models.{Room, RoomMember}
use chatter_stack.Rooms.{Publisher}
use chatter_stack.Rooms.Members.{role_of}
use chatter_stack.Rooms.Reuse.{FindsDirectRooms}
use chatter_stack.Postgres.{Tables, Db, Env, called, select, first_row, query, got}
use chatter_stack.Postgres.RoomRepo.{
  room_row, member_row, is_direct, find_direct_room, create, repository,
}
use chatter_stack.Postgres.Created.{IsCreated, create_all_or_nothing}
use chatter_stack.Postgres.Counting.{elsewhere, two_present, is_direct-elsewhere, select-last}

-- What is relied on: queries are answered, rows that are read are those selected, and a new id is not
-- yet in use as the id of a room, and is written as PostgreSQL writes it.
pub record IsSound (env : Env) : Type 0 where
  pub readable : (params : List String) (db : Db) → env.unreadable params db ≡ none
  pub scan_none : (rows : List Room) → env.scan_rooms rows ≡ [] → rows ≡ []
  pub scan_one : (r : Room) → env.scan_rooms (r ∷ []) ≡ r ∷ []
  pub canonical : (db : Db) → env.uuid (env.new_id db) ≡ env.new_id db
  pub fresh_rooms : (db : Db) → All (λ r. r.id ≢ env.new_id db) db.tables.rooms
  pub fresh_members : (db : Db) → All (λ m. m.room_id ≢ env.new_id db) db.tables.members

-- A user whose id is written as PostgreSQL writes it.
abbrev pub IsCanonical : Env → String → Type 0
IsCanonical env u = env.uuid u ≡ u

-- The members with the users as the rows have them.
with_row_users : (String → String) → List RoomMember → List RoomMember
with_row_users uuid [] = []
with_row_users uuid (m ∷ ms) = record m { user_id = uuid m.user_id } ∷ with_row_users uuid ms

module _ (uuid : String → String) where
  length-row_users : (ms : List RoomMember) → length (with_row_users uuid ms) ≡ length ms
  unfolding with_row_users
  length-row_users [] = refl
  length-row_users (m ∷ ms) = ap suc (length-row_users ms)

  role_of-row_users :
      (p : String) (ms : List RoomMember)
      → uuid p ≡ p
      → role_of p (with_row_users uuid ms) ≡ none
      → role_of p ms ≡ none
  unfolding with_row_users
  role_of-row_users p [] same h = refl
  role_of-row_users p (m ∷ ms) same h = elim (Bool-cases (eqb m.user_id p)) [
    | inl e ↦
        let at : uuid m.user_id ≡ p = ap uuid ((eq_iff m.user_id p).0 e) ∙ same in
        absurd (ground (arith, eq_iff (uuid m.user_id) p))
    | inr e ↦ rw e (role_of-row_users p ms same (ground arith))
  ]

  users-row_users :
      (ms ms' : List RoomMember)
      → map (λ (m : RoomMember). m.user_id) ms' ≡ map (λ (m : RoomMember). m.user_id) ms
      → map (λ (m : RoomMember). m.user_id) (map (member_row uuid) ms')
        ≡ map (λ (m : RoomMember). m.user_id) (with_row_users uuid ms)
  unfolding with_row_users
  users-row_users [] [] h = refl
  users-row_users [] (m' ∷ ms') h = cc
  users-row_users (m ∷ ms) [] h = cc
  users-row_users (m ∷ ms) (m' ∷ ms') h =
      let first : m'.user_id ≡ m.user_id = ground arith in
      let rest = users-row_users ms ms' (ground arith) in rw (first, rest) refl

  placed-row :
      (id : String) (ms : List RoomMember)
      → uuid id ≡ id
      → All (λ m. m.room_id ≡ id) ms
      → All (λ m. m.room_id ≡ id) (map (member_row uuid) ms)
  placed-row id [] same h = tt
  placed-row id (m ∷ ms) same (h, hs) = (ap uuid h ∙ same, placed-row id ms same hs)

module _ (env : Env) (sound : IsSound env) where
  abbrev found_in : String → String → Tables → Result Room
  found_in p q t = first_row (env.scan_rooms (select (is_direct p q t.members) t.rooms))

  find_direct_room-eq :
      (p q : String) (db : Db) → find_direct_room env p q db ≡ (found_in p q db.tables, called db)
  unfolding find_direct_room query got
  find_direct_room-eq p q db = rw (sound.readable (p ∷ q ∷ []) db) refl

  empty_of_missing : (rows : List Room) → first_row rows ≡ err no_rows → rows ≡ []
  empty_of_missing [] h = refl
  empty_of_missing (r ∷ rows) h = cc

  unchanged :
      (p q id : String) (rows : List Room) (old ms' : List RoomMember)
      → All (λ r. r.id ≢ id) rows
      → All (λ m. m.room_id ≡ id) ms'
      → All (λ r. is_direct p q (old ++ ms') r ≡ is_direct p q old r) rows
  unchanged p q id [] old ms' h k = tt
  unchanged p q id (r ∷ rows) old ms' (h, hs) k = (
    is_direct-elsewhere p q r old ms' (elsewhere r.id id ms' h k),
    unchanged p q id rows old ms' hs k,
  )

  new_of_empty : (r : Room) → r.id ≡ "" → (id : String) → (if eqb r.id "" then id else r.id) ≡ id
  new_of_empty r i id = rw i refl

  found_in_created :
      (p q : String) (r r' : Room) (ms ms' : List RoomMember) (db db' : Db)
      → r.is_group ≡ false
      → r.id ≡ ""
      → length ms ≡ 2
      → role_of p ms ≢ none
      → role_of q ms ≢ none
      → p ≢ q
      → IsCanonical env p
      → IsCanonical env q
      → found_in p q db.tables ≡ err no_rows
      → IsCreated env r ms r' ms' db db'
      → found_in p q db'.tables ≡ ok (room_row env.uuid r')
  unfolding is_direct
  found_in_created p q r r' ms ms' db db' g i n hp hq d kp kq missing made =
      let id : env.new_id (called db) ≡ r'.id =
        sym (made.id ∙ new_of_empty r i (env.new_id (called db))) in
      let away =
        subst (λ x. All (λ (m : RoomMember). m.room_id ≢ x) db.tables.members) id
          (sound.fresh_members (called db)) in
      let others =
        subst (λ x. All (λ (m : Room). m.id ≢ x) db.tables.rooms) id
          (sound.fresh_rooms (called db)) in
      let kept : env.uuid r'.id ≡ r'.id = ap env.uuid (sym id) ∙ sound.canonical (called db) ∙ id in
      let rows = map (member_row env.uuid) ms' in
      let here = placed-row env.uuid r'.id ms' kept made.placed in
      let (c, u) =
        two_present p q r'.id db.tables.members (with_row_users env.uuid ms) rows away here
          (users-row_users env.uuid ms ms' made.users) (length-row_users env.uuid ms ∙ n)
          (λ k. hp (role_of-row_users env.uuid p ms kp k))
          (λ k. hq (role_of-row_users env.uuid q ms kq k)) d in
      let none_before = sound.scan_none _ (empty_of_missing _ missing) in
      let direct : is_direct p q (db.tables.members ++ rows) (room_row env.uuid r') ≡ true =
        rw (made.is_group, g, kept, c, u) refl in
      let selected =
        select-last (is_direct p q db.tables.members) (is_direct p q (db.tables.members ++ rows))
          db.tables.rooms (room_row env.uuid r')
          (unchanged p q r'.id db.tables.rooms db.tables.members rows others here) none_before
          direct in
      rw (made.tables, selected, sound.scan_one (room_row env.uuid r')) refl

  found_after_create :
      (p q : String) (r r' : Room) (ms ms' : List RoomMember) (db0 db db' : Db)
      → r.is_group ≡ false
      → r.id ≡ ""
      → length ms ≡ 2
      → role_of p ms ≢ none
      → role_of q ms ≢ none
      → p ≢ q
      → IsCanonical env p
      → IsCanonical env q
      → find_direct_room env p q db0 ≡ (err no_rows, db)
      → create env r ms db ≡ (ok (r', ms'), db')
      → (find_direct_room env p q db').0 ≡ ok (room_row env.uuid r')
  found_after_create p q r r' ms ms' db0 db db' g i n hp hq d kp kq missing made =
      let looked = sym (find_direct_room-eq p q db0) ∙ missing in
      let same : db0.tables ≡ db.tables = ap (λ (x : Result Room × Db). x.1.tables) looked in
      let before : found_in p q db.tables ≡ err no_rows =
        ap (found_in p q) (sym same) ∙ ap (λ x. x.0) looked in
      rw (find_direct_room-eq p q db') (elim (create_all_or_nothing env r ms db) [
        | inl (e, f, same) ↦ absurd (ground (arith, rw made at f))
        | inr (x, xs, inr (e, d', f, lost), c) ↦ absurd (ground (arith, rw made at f))
        | inr (x, xs, inl f, c) ↦
            let after = (create env r ms db).1 in
            let both : ◌≡◌ {A = Result (Room × List RoomMember)} (ok (x, xs)) (ok (r', ms')) =
              sym f ∙ ap (λ y. y.0) made in
            let room : x ≡ r' = ground arith in
            ap (λ y. found_in p q y.1.tables) (sym made)
            ∙ found_in_created p q r x ms xs db after g i n hp hq d kp kq before c
            ∙ ap (λ y. ok (room_row env.uuid y)) room
      ])

  -- The room repository, over a database whose queries are answered and in which a new id is not
  -- yet in use, gives the room service what it relies on for direct rooms, provided that
  -- publishing leaves the tables alone: the room that is created for two users when a look-up has
  -- found none is what their look-up finds from then on.
  pub repository-FindsDirectRooms :
      (pub_sub : Option (Publisher Db)) (marshal : Room → Result String)
      (iterate : List RoomMember → List RoomMember)
      → ((publish : Publisher Db) (channel payload : String) (db : Db)
          → pub_sub ≡ some publish
          → (publish channel payload db).1.tables ≡ db.tables)
      → FindsDirectRooms (room_row env.uuid) (IsCanonical env) (record {
        repo = repository env;
        pub_sub = pub_sub;
        marshal = marshal;
        iterate = iterate;
      })
  repository-FindsDirectRooms pub_sub marshal iterate quiet = record {
    finds = found_after_create;
    keeps = λ publish p q channel payload w e.
        rw (find_direct_room-eq p q (publish channel payload w).1, find_direct_room-eq p q w)
          (ap (found_in p q) (quiet publish channel payload w e));
  }
