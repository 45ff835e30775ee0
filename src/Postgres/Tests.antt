-- ===== src/Postgres/Tests.antt =====
-- The repositories over a small database that refuses nothing.
use Prim.Native.String.{len}
use text.Mathlib.TextPositions.{len-append}
use chatter_stack.Base.{
  ℕ, suc, ◌+◌, ◌≤◌, ◌<◌, pos, String, cat, ◌≡◌, ◌≢◌, refl, ap, false, none, some, List, [], ◌∷◌,
  ◌⊎◌, eqb, ne_of_eqb, arith, true, All, length, trim_space, is_space,
}
use chatter_stack.Errors.{Error}
use chatter_stack.Exec.{ok, err}
use chatter_stack.Models.{
  Room, RoomMember, Message, role_admin, role_member, status_read, status_delivered,
}
use chatter_stack.Rooms.Reuse.{FindsDirectRooms}
use chatter_stack.Messages.{mark_read, mark_delivered, upsert_read}
use chatter_stack.Postgres.{
  Db, Env, called, in_micros, select, update_rows, any_row, insert_row, order_by, take, drop,
  limit_rows, offset_rows, exec, exec_rows, query, transaction,
}
use chatter_stack.Postgres.RoomRepo
use chatter_stack.Postgres.RoomRepo.{repository}
use chatter_stack.Postgres.MessageRepo
use chatter_stack.Postgres.Created.{IsCreated, create_all_or_nothing}
use chatter_stack.Postgres.DirectRooms.{IsSound, IsCanonical, repository-FindsDirectRooms}
use chatter_stack.Postgres.Receipts.{service, status_of, receipt_of, now_is, delivered_after_read}
use chatter_stack.Postgres.History.{IsNewestFirst, list_by_room_page, stored_without_attachments}

-- A text that is longer than the ids of the rooms.
unfoldable pub beyond_rooms : List Room → String → String
beyond_rooms [] s = s
beyond_rooms (r ∷ rooms) s = cat "x" (cat r.id (beyond_rooms rooms s))

unfoldable pub beyond_members : List RoomMember → String
beyond_members [] = "y"
beyond_members (m ∷ ms) = cat "x" (cat m.room_id (beyond_members ms))

len-x : (s t : String) → len (cat "x" (cat s t)) ≡ suc (len s + len t)
len-x s t =
    let one : len "x" ≡ 1 = refl in omega (arith, one, len-append "x" (cat s t), len-append s t)

rooms_grow : (rooms : List Room) (s : String) → len s ≤ len (beyond_rooms rooms s)
unfolding beyond_rooms
rooms_grow [] s = omega arith
rooms_grow (r ∷ rooms) s = omega (arith, rooms_grow rooms s, len-x r.id (beyond_rooms rooms s))

rooms_below :
    (rooms : List Room) (s : String) (n : ℕ)
    → len (beyond_rooms rooms s) ≤ n
    → All (λ r. len r.id < n) rooms
unfolding beyond_rooms
rooms_below [] s n h = tt
rooms_below (r ∷ rooms) s n h =
    let eq = len-x r.id (beyond_rooms rooms s) in
    (omega (arith, h, eq), rooms_below rooms s n (omega (arith, h, eq)))

members_below :
    (ms : List RoomMember) (n : ℕ) → len (beyond_members ms) ≤ n → All (λ m. len m.room_id < n) ms
unfolding beyond_members
members_below [] n h = tt
members_below (m ∷ ms) n h =
    let eq = len-x m.room_id (beyond_members ms) in
    (omega (arith, h, eq), members_below ms n (omega (arith, h, eq)))

shorter_differ : (a b : String) → len a < len b → a ≢ b
shorter_differ a b h e = omega (arith, h, ap len e)

All-differ :
    {A : Type 0} (name : A → String) (s : String) (rows : List A)
    → All (λ x. len (name x) < len s) rows
    → All (λ x. name x ≢ s) rows
All-differ name s [] h = tt
All-differ name s (x ∷ rows) (h, hs) = (shorter_differ (name x) s h, All-differ name s rows hs)

unfoldable pub new_id : Db → String
unfolding beyond_rooms beyond_members
new_id db = beyond_rooms db.tables.rooms (beyond_members db.tables.members)

abbrev pub env : Env
env = record {
  refuses = λ params t db. none;
  unreadable = λ params db. none;
  begins = λ db. none;
  commits = λ db. none;
  reserve = λ n. true;
  uuid = λ s. s;
  new_id = new_id;
  now = λ db. db.calls;
  scan_rooms = λ rows. rows;
  scan_messages = λ rows. rows;
  matches = eqb;
}

pub env-IsSound : IsSound env
unfolding new_id
env-IsSound = record {
  readable = λ params db. refl;
  scan_none = λ rows e. e;
  scan_one = λ r. refl;
  canonical = λ db. refl;
  fresh_rooms = λ db.
      All-differ (λ (r : Room). r.id) (new_id db) db.tables.rooms
        (rooms_below db.tables.rooms (beyond_members db.tables.members) (len (new_id db))
          (omega arith));
  fresh_members = λ db.
      All-differ (λ (m : RoomMember). m.room_id) (new_id db) db.tables.members
        (members_below db.tables.members (len (new_id db))
          (rooms_grow db.tables.rooms (beyond_members db.tables.members)));
}

abbrev hello : Message
hello = record {
  id = "m1";
  room_id = "r1";
  sender_id = "u1";
  content = "hello";
  attachments = [];
  status = "SENT";
  created_at = 1;
  updated_at = 1;
}

abbrev picture : Message
picture = record hello {
  id = "";
  attachments =
      record { id = ""; message_id = ""; url = "u"; mime_type = "m"; size_bytes = pos 3 } ∷ [];
  created_at = 5432;
  updated_at = 5432;
}

abbrev start : Db
start = record {
  tables = record { users = []; rooms = []; members = []; messages = hello ∷ []; receipts = [] };
  calls = 0;
}

abbrev dm : Room
dm = record { id = ""; name = "dm"; is_group = false; created_by = "a"; created_at = 0 }

abbrev two : List RoomMember
two =
    record { id = ""; room_id = ""; user_id = "a"; role = role_admin }
    ∷ record { id = ""; room_id = ""; user_id = "b"; role = role_member }
    ∷ []

create_all_or_nothing_example :
    ((e : Error) × ((RoomRepo.create env dm two start).0 ≡ err e)
      × ((RoomRepo.create env dm two start).1.tables ≡ start.tables))
    ⊎ ((r' : Room) × (ms' : List RoomMember) × (((RoomRepo.create env dm two start).0
            ≡ ok (r', ms'))
          ⊎ ((e : Error) × (d : Db) × ((RoomRepo.create env dm two start).0 ≡ err e)
              × (env.commits d ≡ some (e, true))))
        × IsCreated env dm two r' ms' start (RoomRepo.create env dm two start).1)
create_all_or_nothing_example = create_all_or_nothing env dm two start

repository-FindsDirectRooms_at_work :
    FindsDirectRooms
      (RoomRepo.room_row env.uuid)
      (IsCanonical env)
      (record { repo = repository env; pub_sub = none; marshal = λ r. ok ""; iterate = λ ms. ms })
repository-FindsDirectRooms_at_work =
    repository-FindsDirectRooms env env-IsSound none (λ r. ok "") (λ ms. ms)
      (λ publish channel payload db e. absurd (ground arith))

unfoldable pub postgres_code : Unit {0}
unfolding exec exec_rows query transaction select update_rows any_row insert_row order_by take drop
    limit_rows offset_rows RoomRepo.create RoomRepo.find_direct_room MessageRepo.upsert_receipt
    MessageRepo.update_status MessageRepo.list_by_room MessageRepo.create MessageRepo.get_by_id
    MessageRepo.completed MessageRepo.insert_completed MessageRepo.complete_receipt
    MessageRepo.upsert_row MessageRepo.set_status MessageRepo.insert_message MessageRepo.is_in_room
    mark_read mark_delivered upsert_read trim_space is_space new_id in_micros
postgres_code = tt

abbrev read : Db
read = (mark_read (service env none (λ e. ok "") (λ db. 7321)) "m1" "u2" start).1

abbrev delivered : Db
delivered = (mark_delivered (service env none (λ e. ok "") (λ db. 7321)) "m1" "u2" read).1

delivered_after_read_example :
    (receipt_of "m1" "u2" read.tables.receipts ≡ some (status_read, some 7000))
    × (status_of "m1" read.tables.messages ≡ some status_read)
    × (receipt_of "m1" "u2" delivered.tables.receipts ≡ some (status_delivered, none))
    × (status_of "m1" delivered.tables.messages ≡ some status_delivered)
unfolding postgres_code status_of now_is
delivered_after_read_example =
    delivered_after_read env none (λ e. ok "") (λ db. 7321) "m1" "u2" start read delivered refl refl

list_by_room_page_example :
    All (λ m. m.room_id ≡ "r1") (hello ∷ [])
    × IsNewestFirst (hello ∷ [])
    × (length (hello ∷ []) ≤ 2)
unfolding postgres_code
list_by_room_page_example =
    list_by_room_page env (record { keeps = λ test rows h. h }) "r1" 2 0 (hello ∷ []) start
      (called start) refl

abbrev sent : Message
sent = record picture { id = "y" }

ids_differ : ◌≢◌ {A = String} "m1" "y"
ids_differ = ne_of_eqb "m1" "y" refl

stored_without_attachments_example :
    (sent.attachments ≡ picture.attachments)
    × ((MessageRepo.get_by_id env "y" (MessageRepo.create env picture start).1).0
        ≡ ok (record sent { attachments = []; created_at = 5000; updated_at = 5000 }))
unfolding postgres_code
stored_without_attachments_example =
    stored_without_attachments env picture sent start (MessageRepo.create env picture start).1
      (λ params d. refl) (ids_differ, tt) refl refl refl
