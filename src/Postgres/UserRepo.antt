-- ===== src/Postgres/UserRepo.antt =====
-- internal/repository/postgres/user_repo.go, over ids that `uuid` leaves as they are.
use chatter_stack.Base.{ℕ, String, Bool, [], ◌∷◌, ◌++◌, eqb, ◌==◌, if◌then◌else◌}
use chatter_stack.Exec.{ok, Exec, pure, ◌>>=◌, ◌>>◌}
use chatter_stack.Models.{User}
use chatter_stack.Auth.{UserRepository}
use chatter_stack.Postgres.{Tables, Db, Env, in_micros, select, update_rows, first_row, exec, query}

unfoldable pub insert_user : User → Tables → Tables
unfolding in_micros
insert_user u t = record t {
  users =
      t.users
      ++ record u { last_seen_at = in_micros u.last_seen_at; created_at = in_micros u.created_at }
        ∷ [];
}

abbrev pub has_id : String → User → Bool
has_id id u = eqb u.id id

unfoldable pub set_status : String → String → ℕ → Tables → Tables
unfolding update_rows in_micros
set_status id status last_seen t = record t {
  users =
      update_rows (has_id id)
        (λ u. record u { status = status; last_seen_at = in_micros last_seen }) t.users;
}

module _ (env : Env) where
  complete : User → Exec Db User
  complete u db = (
    ok (record u {
      id = if eqb u.id "" then env.new_id db else u.id;
      created_at = if u.created_at == 0 then env.now db else u.created_at;
    }),
    db,
  )

  unfoldable pub create : User → Exec Db User
  unfolding complete insert_user
  create u = do
    user ← complete u
    exec env (user.id ∷ user.username ∷ user.email ∷ user.password_hash ∷ user.status ∷ [])
        (insert_user user)
    pure user

  unfoldable pub get_by_id : String → Exec Db User
  unfolding select
  get_by_id id = query env (id ∷ []) (λ t. first_row (select (has_id id) t.users))

  unfoldable pub get_by_email : String → Exec Db User
  unfolding select
  get_by_email email =
      query env (email ∷ []) (λ t. first_row (select (λ u. eqb u.email email) t.users))

  unfoldable pub update_status : String → String → ℕ → Exec Db (Unit {0})
  unfolding set_status
  update_status id status last_seen = exec env (status ∷ id ∷ []) (set_status id status last_seen)

  abbrev pub repository : UserRepository Db
  repository = record {
    create = create;
    get_by_email = get_by_email;
    get_by_id = get_by_id;
    update_status = update_status;
  }
