-- ===== src/Server/Wiring/Members.antt =====
-- Lists of members, in the servers that cmd/server/main.go puts together.
use chatter_stack.Base.{String, ◌≡◌, none, List, refl, inl, inr, Bool-cases}
use chatter_stack.Rooms
use chatter_stack.Rooms.{is_blank}
use chatter_stack.Config.{Config}
use chatter_stack.Redis
use chatter_stack.Postgres.{Db, Env}
use chatter_stack.Postgres.Lookup.{list_members_again}
use chatter_stack.Server.Wiring.{Node, Libraries, room_repo, services}

module _ {K S : Type 0} (env : Env) (client : Redis.Client K S) (libraries : Libraries K)
    (cfg : Config) where
  -- If queries are answered, what a list of members says does not depend on the lists before it.
  pub services-list_members :
      ((params : List String) (db : Db) → env.unreadable params db ≡ none)
      → (q r : String) (n : Node K)
      → let rooms = (services env client libraries cfg).rooms in
        (Rooms.list_members rooms r (Rooms.list_members rooms q n).1).0
        ≡ (Rooms.list_members rooms r n).0
  unfolding Rooms.list_members services room_repo
  services-list_members readable q r n = elim (Bool-cases (is_blank q)) [
    | inl e ↦ rw e refl
    | inr e ↦ elim (Bool-cases (is_blank r)) [
      | inl f ↦ rw (e, f) refl
      | inr f ↦ rw (e, f) (list_members_again env readable q r n.db)
    ]
  ]
