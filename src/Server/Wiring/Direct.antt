-- ===== src/Server/Wiring/Direct.antt =====
-- Direct rooms, in the servers that cmd/server/main.go puts together.
use chatter_stack.Base.{String, trim_space, ◌≡◌, ap, true, false, none, arith}
use chatter_stack.Exec.{Result, ok}
use chatter_stack.Models.{Room}
use chatter_stack.Rooms.{Publisher, ensure_direct_room}
use chatter_stack.Rooms.Creation.{Iterates}
use chatter_stack.Rooms.Reuse.{FindsDirectRooms, ensure_direct_room_again}
use chatter_stack.Config.{Config}
use chatter_stack.Redis
use chatter_stack.Postgres.{Db, Env}
use chatter_stack.Postgres.RoomRepo.{room_row, find_direct_room}
use chatter_stack.Postgres.DirectRooms.{IsSound, IsCanonical, repository-FindsDirectRooms}
use chatter_stack.Server.Wiring.{Node, Libraries, room_repo, publish, services}

-- A call of the whole that is one of the database.
db_part : {K A : Type 0} → Result A × Node K → Result A × Db
db_part (r, n) = (r, n.db)

module _ {K S : Type 0} (env : Env) (client : Redis.Client K S) (libraries : Libraries K)
    (sound : IsSound env) (iterates : Iterates libraries.iterate) (cfg : Config) where
  services-FindsDirectRooms :
      FindsDirectRooms
        (room_row env.uuid)
        (IsCanonical env)
        (services env client libraries cfg).rooms
  unfolding services room_repo publish db_part
  services-FindsDirectRooms =
      let over =
        repository-FindsDirectRooms env sound none libraries.marshal_room libraries.iterate
          (λ f channel payload db e. absurd (ground arith)) in
      record {
        finds = λ p q r r' ms ms' n0 n n' g i l hp hq d kp kq missing made.
            over.finds p q r r' ms ms' n0.db n.db n'.db g i l hp hq d kp kq (ap db_part missing)
              (ap db_part made);
        keeps = λ f p q channel payload n e.
            let same : f ≡ publish env client libraries = cc in
            ap (λ (f : Publisher (Node K)). (find_direct_room env p q (f channel payload n).1.db).0)
              same;
      }

  -- In the servers that are put together, over a database whose queries are answered and in which
  -- a new id is not yet in use and is written as PostgreSQL writes it, and with an iteration that
  -- gives each member of the map, after a direct room has been created asking for it again, in
  -- either order of the users, finds the room as its row has it, its time in microseconds, and
  -- creates none. The ids of the users, spaces around them left out, are written as PostgreSQL
  -- writes a UUID.
  pub direct_room_again :
      (a b : String) (r : Room) (n n' : Node K)
      → IsCanonical env (trim_space a)
      → IsCanonical env (trim_space b)
      → ensure_direct_room (services env client libraries cfg).rooms a b n ≡ (ok (r, true), n')
      → ((ensure_direct_room (services env client libraries cfg).rooms a b n').0
          ≡ ok (room_row env.uuid r, false))
        × ((ensure_direct_room (services env client libraries cfg).rooms b a n').0
            ≡ ok (room_row env.uuid r, false))
  direct_room_again =
      ensure_direct_room_again (services env client libraries cfg).rooms services-FindsDirectRooms
        (unfold services in iterates)
